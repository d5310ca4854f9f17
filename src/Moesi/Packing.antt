-- ===== src/Moesi/Packing.antt =====
-- construct_msg_pack and parse_msg_pack (src/cache/moesi/protocal.cpp) against each other.
use nullrvsim.Prelude.{
  ℕ, zero, suc, ◌+◌, ◌/◌, ◌^◌, ◌<◌, ◌≡◌, refl, ap, ◌∙◌, ltb, if◌then◌else◌, List, [], ◌∷◌, ◌++◌,
  length, take, drop, arith, ◌==◌, length-append,
}
use nullrvsim.Moesi.Message.{Msg, le_bytes, le_value, construct_msg_pack, parse_msg_pack}
use native.Mathlib.Nat.{pow-suc}

length-le_bytes : (n v : ℕ) → length (le_bytes n v) ≡ n
unfolding le_bytes
length-le_bytes zero v = refl
length-le_bytes (suc n) v = ap suc (length-le_bytes n (v / 256))

-- The bytes of a number that fits give it back.
pub le_value-le_bytes : (n v : ℕ) → v < 256 ^ n → le_value (le_bytes n v) ≡ v
unfolding le_bytes le_value
le_value-le_bytes zero v h = omega arith
le_value-le_bytes (suc n) v h =
    omega (arith, pow-suc 256 n, le_value-le_bytes n (v / 256) (omega (arith, pow-suc 256 n)))

module _ {ℓ} {A : Type ℓ} where
  take-append_of_length : (xs ys : List A) (n : ℕ) → length xs ≡ n → take n (xs ++ ys) ≡ xs
  take-append_of_length [] ys zero e = refl
  take-append_of_length [] ys (suc n) e = absurd (omega arith)
  take-append_of_length (x ∷ xs) ys zero e = absurd (omega arith)
  take-append_of_length (x ∷ xs) ys (suc n) e =
      ap (◌∷◌ x) (take-append_of_length xs ys n (omega arith))

  drop-append_of_length :
      (xs ys : List A) (n m : ℕ) → length xs ≡ n → drop (n + m) (xs ++ ys) ≡ drop m ys
  drop-append_of_length [] ys zero m e = ap (λ k. drop k ys) (omega arith)
  drop-append_of_length [] ys (suc n) m e = absurd (omega arith)
  drop-append_of_length (x ∷ xs) ys zero m e = absurd (omega arith)
  drop-append_of_length (x ∷ xs) ys (suc n) m e =
      ap (λ k. drop k (x ∷ (xs ++ ys))) {y = suc (n + m)} (omega arith)
      ∙ drop-append_of_length xs ys n m (omega arith)

pub record IsMsg (m : Msg) : Type 0 where
  pub type_fits : m.type_ < 2 ^ 32
  pub arg_fits : m.arg < 2 ^ 32
  pub transid_fits : m.transid < 2 ^ 32
  pub line_fits : m.line < 2 ^ 64

-- A message whose fields fit their widths comes back from its packet; one without data leaves the
-- data that the receiving message had before.
pub parse_msg_pack-construct_msg_pack :
    (m old : Msg)
    → IsMsg m
    → parse_msg_pack (construct_msg_pack m) old
      ≡ record m { data_ = if length m.data_ == 0 then old.data_ else m.data_ }
unfolding construct_msg_pack parse_msg_pack
parse_msg_pack-construct_msg_pack m old v = λ i. record {
  type_ =
      (ap le_value (take-append_of_length a (b ++ (c ++ (d ++ m.data_))) 4 la)
          ∙ le_value-le_bytes 4 m.type_ (omega arith))
        i;
  arg =
      (ap le_value (
            ap (take 4) (drop-append_of_length a (b ++ (c ++ (d ++ m.data_))) 4 0 la)
            ∙ take-append_of_length b (c ++ (d ++ m.data_)) 4 lb)
          ∙ le_value-le_bytes 4 m.arg (omega arith))
        i;
  transid =
      (ap le_value (ap (take 4) after_arg ∙ take-append_of_length c (d ++ m.data_) 4 lc)
          ∙ le_value-le_bytes 4 m.transid (omega arith))
        i;
  line =
      (ap le_value (ap (take 8) after_transid ∙ take-append_of_length d m.data_ 8 ld)
          ∙ le_value-le_bytes 8 m.line (omega arith))
        i;
  data_ = payload i;
}
  where
    a : List ℕ
    a = le_bytes 4 m.type_

    b : List ℕ
    b = le_bytes 4 m.arg

    c : List ℕ
    c = le_bytes 4 m.transid

    d : List ℕ
    d = le_bytes 8 m.line

    la : length a ≡ 4
    la = length-le_bytes 4 m.type_

    lb : length b ≡ 4
    lb = length-le_bytes 4 m.arg

    lc : length c ≡ 4
    lc = length-le_bytes 4 m.transid

    ld : length d ≡ 8
    ld = length-le_bytes 8 m.line

    after_arg : drop 8 (a ++ (b ++ (c ++ (d ++ m.data_)))) ≡ c ++ (d ++ m.data_)
    after_arg = drop-append_of_length a _ 4 4 la ∙ drop-append_of_length b _ 4 0 lb

    after_transid : drop 12 (a ++ (b ++ (c ++ (d ++ m.data_)))) ≡ d ++ m.data_
    after_transid =
        drop-append_of_length a _ 4 8 la
        ∙ drop-append_of_length b _ 4 4 lb
        ∙ drop-append_of_length c _ 4 0 lc

    after_line : drop 20 (a ++ (b ++ (c ++ (d ++ m.data_)))) ≡ m.data_
    after_line =
        drop-append_of_length a _ 4 16 la
        ∙ drop-append_of_length b _ 4 12 lb
        ∙ drop-append_of_length c _ 4 8 lc
        ∙ drop-append_of_length d _ 8 0 ld

    total : length (a ++ (b ++ (c ++ (d ++ m.data_)))) ≡ 20 + length m.data_
    total = omega (
      arith,
      la,
      lb,
      lc,
      ld,
      length-append a (b ++ (c ++ (d ++ m.data_))),
      length-append b (c ++ (d ++ m.data_)),
      length-append c (d ++ m.data_),
      length-append d m.data_,
    )

    payload :
        (if ltb 20 (length (a ++ (b ++ (c ++ (d ++ m.data_)))))
          then drop 20 (a ++ (b ++ (c ++ (d ++ m.data_))))
          else old.data_)
        ≡ (if length m.data_ == 0 then old.data_ else m.data_)
    payload = rw (after_line, total) (ground arith)
