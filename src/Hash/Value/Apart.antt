-- ===== src/Hash/Value/Apart.antt =====
-- A value is determined by its encoding.
use task_rs.Base.{
  ℕ, ◌≤◌, ◌<◌, ◌≡◌, refl, sym, ap, ap₂, subst, ◌∙◌, Bool, false, [], ◌∷◌, ◌++◌, arith, length,
  length-append, append_assoc, tail_eq, head_eq,
}
use task_rs.Hash.Bytes.{Bytes, str}
use task_rs.Hash.Code.{Code, Always, str-Code, bool-Code, u64_bound, regroup, sized-apart}
use task_rs.Hash.Value.{
  Value, null, boolean, number, string, sequence, mapping, tagged, Values, nil, cons, Pairs,
  nil_pair, cons_pair, values_len, pairs_len, encode_value, encode_values, encode_pairs,
}

kind : Value → ℕ
kind null = 0
kind (boolean b) = 1
kind (number n) = 2
kind (string s) = 3
kind (sequence vs) = 4
kind (mapping ps) = 5
kind (tagged t v) = 6

-- The parts of a value of a kind that is known.
flag_of : Value → Bool
flag_of (boolean b) = b
flag_of _ = false

text_of : Value → Bytes
text_of (number n) = n
text_of (string s) = s
text_of (tagged t v) = t
text_of _ = []

values_of : Value → Values
values_of (sequence vs) = vs
values_of _ = nil

pairs_of : Value → Pairs
pairs_of (mapping ps) = ps
pairs_of _ = nil_pair

inner_of : Value → Value
inner_of (tagged t v) = v
inner_of _ = null

null_eta : (b : Value) → kind b ≡ 0 → b ≡ null
unfolding kind
null_eta b h = ground (arith, h)

boolean_eta : (b : Value) → kind b ≡ 1 → b ≡ boolean (flag_of b)
unfolding kind flag_of
boolean_eta b h = ground (arith, h)

number_eta : (b : Value) → kind b ≡ 2 → b ≡ number (text_of b)
unfolding kind text_of
number_eta b h = ground (arith, h)

string_eta : (b : Value) → kind b ≡ 3 → b ≡ string (text_of b)
unfolding kind text_of
string_eta b h = ground (arith, h)

sequence_eta : (b : Value) → kind b ≡ 4 → b ≡ sequence (values_of b)
unfolding kind values_of
sequence_eta b h = ground (arith, h)

mapping_eta : (b : Value) → kind b ≡ 5 → b ≡ mapping (pairs_of b)
unfolding kind pairs_of
mapping_eta b h = ground (arith, h)

tagged_eta : (b : Value) → kind b ≡ 6 → b ≡ tagged (text_of b) (inner_of b)
unfolding kind text_of inner_of
tagged_eta b h = ground (arith, h)

encode-kind : (v : Value) → (rest : Bytes) × (encode_value v ≡ kind v ∷ rest)
unfolding kind encode_value
encode-kind null = (_, refl)
encode-kind (boolean b) = (_, refl)
encode-kind (number n) = (_, refl)
encode-kind (string s) = (_, refl)
encode-kind (sequence vs) = (_, refl)
encode-kind (mapping ps) = (_, refl)
encode-kind (tagged t v) = (_, refl)

-- The same bytes begin with the same kind.
same_kind :
    (a b : Value) (r s : Bytes) → encode_value a ++ r ≡ encode_value b ++ s → kind a ≡ kind b
same_kind a b r s e = head_eq (
    sym (ap (λ (x : Bytes). x ++ r) (encode-kind a).1)
    ∙ e
    ∙ ap (λ (x : Bytes). x ++ s) (encode-kind b).1)

-- The encoding of the rebuilt value.
rebuilt :
    (s : Bytes) {b b' : Value} {x : Bytes}
    → b ≡ b'
    → x ≡ encode_value b ++ s
    → x ≡ encode_value b' ++ s
rebuilt s same e = e ∙ ap (λ (v : Value). encode_value v ++ s) same

length_positive : (v : Value) → 0 < length (encode_value v)
length_positive v = omega (arith, ap (λ (x : Bytes). length x) (encode-kind v).1)

values_len-le : (vs : Values) → values_len vs ≤ length (encode_values vs)
unfolding values_len encode_value
values_len-le nil = omega arith
values_len-le (cons v vs) =
    omega (
      arith,
      values_len-le vs,
      length_positive v,
      length-append (encode_value v) (encode_values vs),
    )

pairs_len-le : (ps : Pairs) → pairs_len ps ≤ length (encode_pairs ps)
unfolding pairs_len encode_value
pairs_len-le nil_pair = omega arith
pairs_len-le (cons_pair k v ps) = omega (
  arith,
  pairs_len-le ps,
  length_positive k,
  length-append (encode_value k) (encode_value v ++ encode_pairs ps),
  length-append (encode_value v) (encode_pairs ps),
)

-- Two pieces with a rest behind them.
fits-first :
    (a b r : Bytes) → length ((a ++ b) ++ r) < u64_bound → length (a ++ (b ++ r)) < u64_bound
fits-first a b r l = subst (λ (t : Bytes). length t < u64_bound) (append_assoc a b r) l

fits-second : (a b r : Bytes) → length ((a ++ b) ++ r) < u64_bound → length (b ++ r) < u64_bound
fits-second a b r l =
    omega (arith, l, length-append (a ++ b) r, length-append a b, length-append b r)

mutual
  unfolding kind encode_value values_len pairs_len

  -- The value and what follows it are determined by the bytes.
  value_apart :
      (a b : Value) (r s : Bytes)
      → length (encode_value a ++ r) < u64_bound
      → encode_value a ++ r ≡ encode_value b ++ s
      → (a ≡ b) × (r ≡ s)
  value_apart null b r s l e =
      let same = null_eta b (sym (same_kind null b r s e)) in (sym same, tail_eq (rebuilt s same e))
  value_apart (boolean x) b r s l e =
      let same = boolean_eta b (sym (same_kind (boolean x) b r s e)) in
      let (part, rest) =
        bool-Code.apart x (flag_of b) r s tt tt (omega (arith, l)) (tail_eq (rebuilt s same e)) in
      (ap boolean part ∙ sym same, rest)
  value_apart (number x) b r s l e =
      let same = number_eta b (sym (same_kind (number x) b r s e)) in
      let (part, rest) =
        str-Code.apart x (text_of b) r s tt tt (omega (arith, l)) (tail_eq (rebuilt s same e)) in
      (ap number part ∙ sym same, rest)
  value_apart (string x) b r s l e =
      let same = string_eta b (sym (same_kind (string x) b r s e)) in
      let (part, rest) =
        str-Code.apart x (text_of b) r s tt tt (omega (arith, l)) (tail_eq (rebuilt s same e)) in
      (ap string part ∙ sym same, rest)
  value_apart (sequence x) b r s l e =
      let same = sequence_eta b (sym (same_kind (sequence x) b r s e)) in
      let (size, (fits, rest)) =
        sized-apart (values_len x) (values_len (values_of b)) (encode_values x)
          (encode_values (values_of b)) r s (values_len-le x) (values_len-le (values_of b))
          (omega (arith, l)) (tail_eq (rebuilt s same e)) in
      let (part, after) = values_apart x (values_of b) r s size fits rest in
      (ap sequence part ∙ sym same, after)
  value_apart (mapping x) b r s l e =
      let same = mapping_eta b (sym (same_kind (mapping x) b r s e)) in
      let (size, (fits, rest)) =
        sized-apart (pairs_len x) (pairs_len (pairs_of b)) (encode_pairs x)
          (encode_pairs (pairs_of b)) r s (pairs_len-le x) (pairs_len-le (pairs_of b))
          (omega (arith, l)) (tail_eq (rebuilt s same e)) in
      let (part, after) = pairs_apart x (pairs_of b) r s size fits rest in
      (ap mapping part ∙ sym same, after)
  value_apart (tagged x v) b r s l e =
      let same = tagged_eta b (sym (same_kind (tagged x v) b r s e)) in
      let whole : length ((str x ++ encode_value v) ++ r) < u64_bound = omega (arith, l) in
      let (name, rest) =
        str-Code.apart x (text_of b) (encode_value v ++ r) (encode_value (inner_of b) ++ s) tt tt
          (fits-first (str x) (encode_value v) r whole)
          (regroup (str x) (encode_value v) r (str (text_of b)) (encode_value (inner_of b)) s
            (tail_eq (rebuilt s same e))) in
      let (part, after) =
        value_apart v (inner_of b) r s (fits-second (str x) (encode_value v) r whole) rest in
      (ap₂ tagged name part ∙ sym same, after)

  values_apart :
      (a b : Values) (r s : Bytes)
      → values_len a ≡ values_len b
      → length (encode_values a ++ r) < u64_bound
      → encode_values a ++ r ≡ encode_values b ++ s
      → (a ≡ b) × (r ≡ s)
  values_apart nil nil r s n l e = (refl, e)
  values_apart nil (cons y b) r s n l e = absurd (omega (arith, n))
  values_apart (cons x a) nil r s n l e = absurd (omega (arith, n))
  values_apart (cons x a) (cons y b) r s n l e =
      let (first, rest) =
        value_apart x y (encode_values a ++ r) (encode_values b ++ s)
          (fits-first (encode_value x) (encode_values a) r l)
          (regroup (encode_value x) (encode_values a) r (encode_value y) (encode_values b) s e) in
      let (others, after) =
        values_apart a b r s (omega (arith, n)) (fits-second (encode_value x) (encode_values a) r l)
          rest in
      (ap₂ cons first others, after)

  pairs_apart :
      (a b : Pairs) (r s : Bytes)
      → pairs_len a ≡ pairs_len b
      → length (encode_pairs a ++ r) < u64_bound
      → encode_pairs a ++ r ≡ encode_pairs b ++ s
      → (a ≡ b) × (r ≡ s)
  pairs_apart nil_pair nil_pair r s n l e = (refl, e)
  pairs_apart nil_pair (cons_pair k y b) r s n l e = absurd (omega (arith, n))
  pairs_apart (cons_pair k x a) nil_pair r s n l e = absurd (omega (arith, n))
  pairs_apart (cons_pair k x a) (cons_pair j y b) r s n l e =
      let more = encode_value x ++ encode_pairs a in
      let more' = encode_value y ++ encode_pairs b in
      let (key, rest) =
        value_apart k j (more ++ r) (more' ++ s) (fits-first (encode_value k) more r l)
          (regroup (encode_value k) more r (encode_value j) more' s e) in
      let small = fits-second (encode_value k) more r l in
      let (first, rest') =
        value_apart x y (encode_pairs a ++ r) (encode_pairs b ++ s)
          (fits-first (encode_value x) (encode_pairs a) r small)
          (regroup (encode_value x) (encode_pairs a) r (encode_value y) (encode_pairs b) s rest) in
      let (others, after) =
        pairs_apart a b r s (omega (arith, n))
          (fits-second (encode_value x) (encode_pairs a) r small) rest' in
      (
        ap₂ (λ (h : Value × Value) (t : Pairs). cons_pair h.0 h.1 t)
            (ap₂ (λ (h t : Value). (h, t)) key first) others,
        after,
      )

pub value-Code : Code Always encode_value
value-Code = record {
  apart = λ a b r s _ _ l e. value_apart a b r s l e;
  some_bytes = length_positive;
}
