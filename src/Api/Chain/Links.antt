-- ===== src/Api/Chain/Links.antt =====
-- The chain that src/server/main.cpp links, followed from the info's `pNext`.
use bridge_remix_mhfz.Base.{
  ℕ, ◌≡◌, refl, sym, ap, subst, ◌∙◌, ◌≢◌, List, [], ◌∷◌, ◌++◌, Option, none, some, ==_self,
  ==_of_ne,
}
use mathlib.Core.Option.{some-injective}
use bridge_remix_mhfz.Api.{struct_number}
use bridge_remix_mhfz.Api.Chain.{
  Link, known, unknown, Node, Received, nothing_received, update, with_next, link,
}

-- the `sType` of a link
unfoldable pub s_type : Link → ℕ
unfolding struct_number
s_type (known k v) = struct_number k
s_type (unknown number) = number

-- Following the pointers reads these links and then ends.
pub data Reads (nodes : ℕ → Option Node) : Option ℕ → List Link → Type 0 where
  end : Reads nodes none []
  follow :
      (l : Link) (after : Option ℕ) (links : List Link)
      → nodes (s_type l) ≡ some (record { value = l; next = after })
      → Reads nodes after links
      → Reads nodes (some (s_type l)) (l ∷ links)

abbrev pub NotIn : ℕ → List Link → Type 0
NotIn number [] = Unit {0}
NotIn number (l ∷ links) = (number ≢ s_type l) × NotIn number links

abbrev pub Distinct : List Link → Type 0
Distinct [] = Unit {0}
Distinct (l ∷ links) = NotIn (s_type l) links × Distinct links

abbrev pub last_of : Option ℕ → List Link → Option ℕ
last_of number [] = number
last_of number (l ∷ links) = last_of (some (s_type l)) links

pub record IsLinked (r : Received) (links : List Link) : Type 0 where
  pub reads : Reads r.nodes r.info_next links
  pub last : r.last ≡ last_of none links

update_self : (nodes : ℕ → Option Node) (n : ℕ) (v : Option Node) → update nodes n v n ≡ v
update_self nodes n v = rw (==_self n) refl

update_other :
    (nodes : ℕ → Option Node) (n m : ℕ) (v : Option Node) → m ≢ n → update nodes n v m ≡ nodes m
update_other nodes n m v h = rw (==_of_ne m n h) refl

-- the variables after an extension is received behind the variable `l`
abbrev relinked : (ℕ → Option Node) → ℕ → Link → ℕ → Option Node
relinked nodes l new =
    let fresh = update nodes (s_type new) (some (record { value = new; next = none })) in
    update fresh l (with_next (fresh l) (s_type new))

relinked_last :
    (nodes : ℕ → Option Node) (l new : Link) (after : Option ℕ)
    → s_type l ≢ s_type new
    → nodes (s_type l) ≡ some (record { value = l; next = after })
    → relinked nodes (s_type l) new (s_type l)
      ≡ some (record { value = l; next = some (s_type new) })
relinked_last nodes l new after h e =
    let fresh = update nodes (s_type new) (some (record { value = new; next = none })) in
    update_self fresh (s_type l) (with_next (fresh (s_type l)) (s_type new))
    ∙ ap (λ node. with_next node (s_type new))
        (update_other nodes (s_type new) (s_type l) (some (record { value = new; next = none })) h
          ∙ e)

relinked_new :
    (nodes : ℕ → Option Node) (l : ℕ) (new : Link)
    → s_type new ≢ l
    → relinked nodes l new (s_type new) ≡ some (record { value = new; next = none })
relinked_new nodes l new h =
    let node = some (record { value = new; next = none }) in
    update_other (update nodes (s_type new) node) l (s_type new) _ h
    ∙ update_self nodes (s_type new) node

relinked_other :
    (nodes : ℕ → Option Node) (l : ℕ) (new : Link) (m : ℕ)
    → m ≢ l
    → m ≢ s_type new
    → relinked nodes l new m ≡ nodes m
relinked_other nodes l new m h k =
    let node = some (record { value = new; next = none }) in
    update_other (update nodes (s_type new) node) l m _ h ∙ update_other nodes (s_type new) m node k

NotIn-last :
    (n : ℕ) (first : Link) (links : List Link) (l : ℕ)
    → NotIn n (first ∷ links)
    → last_of (some (s_type first)) links ≡ some l
    → n ≢ l
NotIn-last n first [] l h last = λ e. h.0 (e ∙ sym (some-injective _ _ last))
NotIn-last n first (second ∷ links) l h last = NotIn-last n second links l h.1 last

-- The links from one in front of the last on are read as before, then the new one.
Reads-relinked :
    (nodes : ℕ → Option Node) (next : Option ℕ) (first : Link) (links : List Link) (new : Link)
    (l : ℕ)
    → Reads nodes next (first ∷ links)
    → NotIn (s_type new) (first ∷ links)
    → Distinct (first ∷ links)
    → last_of (some (s_type first)) links ≡ some l
    → Reads (relinked nodes l new) next (first ∷ (links ++ (new ∷ [])))
Reads-relinked nodes _ _ _ new l (follow first _ _ stored end) fresh distinct last =
    let same : s_type first ≡ l = some-injective _ _ last in
    subst (λ l. Reads (relinked nodes l new) (some (s_type first)) (first ∷ (new ∷ []))) same
      (follow first (some (s_type new)) (new ∷ [])
        (relinked_last nodes first new none (λ e. fresh.0 (sym e)) stored)
        (follow new none [] (relinked_new nodes (s_type first) new fresh.0) end))
Reads-relinked nodes _ _ _ new l (follow first _ _ stored (follow second after links more rest))
      fresh distinct last =
    let behind : s_type first ≢ l = NotIn-last (s_type first) second links l distinct.0 last in
    follow first (some (s_type second)) (second ∷ (links ++ (new ∷ [])))
      (relinked_other nodes l new (s_type first) behind (λ e. fresh.0 (sym e)) ∙ stored)
      (Reads-relinked nodes (some (s_type second)) second links new l
        (follow second after links more rest) fresh.1 distinct.1 last)

some_last : (n : ℕ) (links : List Link) → (l : ℕ) × (last_of (some n) links ≡ some l)
some_last n [] = (n, refl)
some_last n (l ∷ links) = some_last (s_type l) links

last_of-append :
    (start : Option ℕ) (links : List Link) (new : Link)
    → last_of start (links ++ (new ∷ [])) ≡ some (s_type new)
last_of-append start [] new = refl
last_of-append start (l ∷ links) new = last_of-append (some (s_type l)) links new

-- An extension of another `sType` than those before is linked behind them.
pub link-IsLinked :
    (r : Received) (links : List Link) (new : Link)
    → IsLinked r links
    → NotIn (s_type new) links
    → Distinct links
    → IsLinked (link r (s_type new) new) (links ++ (new ∷ []))
unfolding link
link-IsLinked r [] new h fresh distinct =
    let stored : Option Node = some (record { value = new; next = none }) in
    rw h.last (record {
      reads = follow new none [] (update_self r.nodes (s_type new) stored) end;
      last = refl;
    })
link-IsLinked r (first ∷ links) new h fresh distinct =
    let found = some_last (s_type first) links in
    rw (h.last, found.1)
      (record {
        reads =
            Reads-relinked r.nodes r.info_next first links new found.0 h.reads fresh distinct
              found.1;
        last = sym (last_of-append (some (s_type first)) links new);
      })

pub nothing_received-IsLinked : IsLinked nothing_received []
nothing_received-IsLinked = record { reads = end; last = refl }

-- An extension behind one of its own `sType` takes the same variable, which then points to itself:
-- following the chain does not end.
pub link_again :
    (r : Received) (number : ℕ) (l : Link)
    → r.last ≡ some number
    → (link r number l).nodes number ≡ some (record { value = l; next = some number })
unfolding link
link_again r number l h =
    let stored : Option Node = some (record { value = l; next = none }) in
    let fresh = update r.nodes number stored in
    rw h (
      update_self fresh number (with_next (fresh number) number)
      ∙ ap (λ v. with_next v number) (update_self r.nodes number stored))
