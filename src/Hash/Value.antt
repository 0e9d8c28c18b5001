-- ===== src/Hash/Value.antt =====
-- `encode_value` of crates/taskcore/src/hash.rs: any YAML value.
pub mod Apart
use task_rs.Base.{
  ℕ, suc, ◌≤◌, ◌<◌, ◌≡◌, refl, sym, ap, ap₂, subst, ◌∙◌, Bool, false, [], ◌∷◌, ◌++◌, arith, length,
  length-append, append_assoc, tail_eq, head_eq,
}
use task_rs.Hash.Bytes.{Bytes, tag, u64, str, bool}
use task_rs.Hash.Code.{Code, Always, str-Code, bool-Code, u64_bound, regroup, sized-apart}

-- crates/taskcore/src/yaml/value.rs; a number and a tag as they are displayed.
mutual
  pub data Value : Type 0 where
    null : Value
    boolean : Bool → Value
    number : Bytes → Value
    string : Bytes → Value
    sequence : Values → Value
    mapping : Pairs → Value
    tagged : Bytes → Value → Value

  pub data Values : Type 0 where
    nil : Values
    cons : Value → Values → Values

  pub data Pairs : Type 0 where
    nil_pair : Pairs
    cons_pair : Value → Value → Pairs → Pairs

unfoldable pub values_len : Values → ℕ
values_len nil = 0
values_len (cons v vs) = suc (values_len vs)

unfoldable pub pairs_len : Pairs → ℕ
pairs_len nil_pair = 0
pairs_len (cons_pair k v ps) = suc (pairs_len ps)

unfoldable mutual
  unfolding str u64 values_len pairs_len

  pub encode_value : Value → Bytes
  encode_value null = tag 0
  encode_value (boolean b) = tag 1 ++ bool b
  encode_value (number n) = tag 2 ++ str n
  encode_value (string s) = tag 3 ++ str s
  encode_value (sequence vs) = tag 4 ++ (u64 (values_len vs) ++ encode_values vs)
  encode_value (mapping ps) = tag 5 ++ (u64 (pairs_len ps) ++ encode_pairs ps)
  encode_value (tagged t v) = tag 6 ++ (str t ++ encode_value v)

  pub encode_values : Values → Bytes
  encode_values nil = []
  encode_values (cons v vs) = encode_value v ++ encode_values vs

  pub encode_pairs : Pairs → Bytes
  encode_pairs nil_pair = []
  encode_pairs (cons_pair k v ps) = encode_value k ++ (encode_value v ++ encode_pairs ps)
