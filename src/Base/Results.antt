-- ===== src/Base/Results.antt =====
-- src/util/util_common.h: the outcome of a queue or channel operation, and the two roles.

-- `bridge_util::Result`
pub data Result : Type 0 where
  success timeout failure : Result

-- `bridge_util::Accessor`
pub data Accessor : Type 0 where
  reader writer : Accessor
