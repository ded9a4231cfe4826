-- ===== src/Tests/Configs.antt =====
-- The configuration file and the sizes of surfaces at concrete inputs.
use bridge_remix_mhfz.Base.{ℕ, ◌≡◌, ◌↔◌, ◌≤◌, ◌*◌, ◌+◌, ◌-◌, ◌^◌, refl, [], ◌∷◌, some, arith, inr}
use bridge_remix_mhfz.Base.Words.{x86, x64}
use bridge_remix_mhfz.Config.{
  Config, is_whitespace, is_valid_key_char, parse_line, parse_list, find_option, merge,
  parse_unsigned, parse_int32, parsed,
}
use bridge_remix_mhfz.Config.Lines.{parse_line-assignment, parse_list-join}
use bridge_remix_mhfz.Config.Options.{or_else, find_option-merge}
use bridge_remix_mhfz.Config.Numbers.{parse_unsigned-eq, parse_int32-eq}
use bridge_remix_mhfz.Sizes.{
  Format, get_block_size, get_bytes_from_format, calc_stride, calc_row_size, calc_image_byte_offset,
}
use bridge_remix_mhfz.Sizes.Bounds.{calc_row_size-agree, calc_image_byte_offset-in_bounds}

-- `ab ="c d"`, with two blanks in front
parse_line-assignment_example :
    parse_line (32 ∷ 32 ∷ 97 ∷ 98 ∷ 32 ∷ 61 ∷ 34 ∷ 99 ∷ 32 ∷ 100 ∷ 34 ∷ [])
    ≡ some (97 ∷ 98 ∷ [], 99 ∷ 32 ∷ 100 ∷ [])
unfolding is_whitespace is_valid_key_char
parse_line-assignment_example =
    parse_line-assignment (32 ∷ 32 ∷ []) 97 (98 ∷ []) (32 ∷ []) [] (99 ∷ 32 ∷ 100 ∷ [])
      (refl, (refl, tt)) (refl, (refl, tt)) (refl, tt) tt (omega arith)

parse_list-join_run : parse_list (97 ∷ 44 ∷ 44 ∷ 98 ∷ []) ≡ (97 ∷ []) ∷ [] ∷ (98 ∷ []) ∷ []
parse_list-join_run =
    parse_list-join ([] ∷ (98 ∷ []) ∷ []) (97 ∷ []) (omega arith) (omega arith) (λ e. cc)

abbrev defaults : Config
defaults = (97 ∷ [], 49 ∷ []) ∷ (98 ∷ [], 50 ∷ []) ∷ []

abbrev users : Config
users = (98 ∷ [], 51 ∷ []) ∷ []

find_option-merge_run :
    find_option (98 ∷ []) (merge defaults users)
    ≡ or_else (find_option (98 ∷ []) users) (find_option (98 ∷ []) defaults)
unfolding find_option
find_option-merge_run = find_option-merge users defaults (98 ∷ []) (refl, tt)

-- 65537
parse_unsigned-eq_run : parse_unsigned 16 (54 ∷ 53 ∷ 53 ∷ 51 ∷ 55 ∷ []) ≡ some 1
parse_unsigned-eq_run =
    parse_unsigned-eq 16 54 (53 ∷ 53 ∷ 51 ∷ 55 ∷ []) (inr refl)
      (refl, (refl, (refl, (refl, (refl, tt)))))

parse_int32-eq_run :
    (parse_int32 (52 ∷ 50 ∷ []) ≡ parsed 42)
    × (parse_int32 (45 ∷ 52 ∷ 50 ∷ []) ≡ parsed (2 ^ 32 - 42))
parse_int32-eq_run = parse_int32-eq 52 (50 ∷ []) (refl, (refl, tt))

-- One pixel of four bytes
calc_row_size-agree_run :
    (calc_row_size x86 1 Format.a8r8g8b8 ≡ calc_row_size x64 1 Format.a8r8g8b8) ↔ (8 ≤ 4)
unfolding get_bytes_from_format get_block_size calc_stride
calc_row_size-agree_run = calc_row_size-agree 1 4 Format.a8r8g8b8 refl

calc_image_byte_offset-in_bounds_run :
    (offset : ℕ) × (calc_image_byte_offset 32 4 4 Format.dxt1 ≡ some offset)
    × (offset + 8 ≤ calc_stride 8 Format.dxt1 * 32)
unfolding get_bytes_from_format get_block_size calc_stride
calc_image_byte_offset-in_bounds_run =
    calc_image_byte_offset-in_bounds 32 4 4 8 8 8 Format.dxt1 refl (omega arith) (omega arith)
      (omega arith) (omega arith) refl refl (omega arith) (omega arith)
