-- ===== src/Hash/Bytes.antt =====
-- The `Encoder` of crates/taskcore/src/hash.rs. A function that writes to the encoder returns the
-- bytes that it appends; a string is its list of bytes.
use Prim.Native.Nat.{◌/◌, ◌%◌}
use task_rs.Base.{ℕ, zero, suc, Bool, true, false, Option, none, some, List, [], ◌∷◌, ◌++◌, length}

abbrev pub Bytes : Type 0
Bytes = List ℕ

-- The bytes of one write, and those of the writes after it.
infixr 6 ◌⊳◌
abbrev pub ◌⊳◌ : Bytes → Bytes → Bytes
a ⊳ b = a ++ b

abbrev pub tag : ℕ → Bytes
tag t = t ∷ []

-- The last bytes of `to_le_bytes`, so many of them.
unfoldable pub le_bytes : ℕ → ℕ → Bytes
le_bytes zero n = []
le_bytes (suc k) n = n % 256 ∷ le_bytes k (n / 256)

-- `u64` and `len`
unfoldable pub u64 : ℕ → Bytes
unfolding le_bytes
u64 n = le_bytes 8 n

-- `bytes` and `str`
unfoldable pub str : Bytes → Bytes
unfolding u64
str s = u64 (length s) ++ s

abbrev pub bool : Bool → Bytes
bool true = 1 ∷ []
bool false = 0 ∷ []

module _ {A : Type 0} (encode : A → Bytes) where
  -- A tag, and what there is after it.
  unfoldable pub optional : Option A → Bytes
  optional none = tag 0
  optional (some a) = tag 1 ++ encode a

  unfoldable pub items : List A → Bytes
  items [] = []
  items (a ∷ rest) = encode a ++ items rest

  -- The length of a list, and its items.
  unfoldable pub sequence : List A → Bytes
  unfolding items u64
  sequence elements = u64 (length elements) ++ items elements
