-- ===== src/Bus/Delivery.antt =====
-- send and recv of src/bus/symmulcha.cpp against each other.
use nullrvsim.Prelude.{
  take-all, ℕ, zero, suc, ◌+◌, ◌-◌, ◌*◌, ◌/◌, ◌%◌, ◌^◌, ◌≡◌, ◌≤◌, ◌<◌, refl, sym, ap, ◌∙◌, true,
  some, List, [], ◌++◌, length, length-append, arith,
}
use native.Mathlib.Nat.{mod-eq_of_lt, lt-div-mul-add, mul-div-le, mul-div_right, mul_comm}
use nullrvsim.Bus.Packs.{
  MsgPack, aligned, pack_count, pack_data, make_packs, send, take_packs, recv,
}
use nullrvsim.Bus.Joined.{joined, length-pack_data, filled}

-- The loop of `recv` undoes the loop of `send`.
take_packs-make_packs :
    (head : MsgPack) (cwid : ℕ) (data_ : List ℕ) (k i pos : ℕ) (rest : List MsgPack)
    → i + k ≤ 2 ^ 16
    → take_packs cwid k i (make_packs head cwid data_ k i pos ++ rest)
      ≡ some (joined cwid data_ k pos, rest)
unfolding take_packs make_packs joined
take_packs-make_packs head cwid data_ zero i pos rest h = refl
take_packs-make_packs head cwid data_ (suc k) i pos rest h = ground (
  arith,
  take_packs-make_packs head cwid data_ k (i + 1) (pos + cwid) rest (omega arith),
  take-all cwid (pack_data cwid pos data_) (omega (arith, length-pack_data cwid pos data_)),
)

pub length-make_packs :
    (head : MsgPack) (cwid : ℕ) (data_ : List ℕ) (k i pos : ℕ)
    → length (make_packs head cwid data_ k i pos) ≡ k
unfolding make_packs
length-make_packs head cwid data_ zero i pos = refl
length-make_packs head cwid data_ (suc k) i pos =
    ap suc (length-make_packs head cwid data_ k (i + 1) (pos + cwid))

recv-make_packs :
    (head : MsgPack) (cwid : ℕ) (data_ buf : List ℕ) (cnt : ℕ) (rest : List MsgPack)
    → 0 < length data_
    → length data_ ≤ cnt * cwid
    → cnt ≤ 2 ^ 16
    → head.pac_cnt ≡ cnt
    → head.len ≡ length data_
    → aligned ((head.len + cwid - 1) % 2 ^ 32) cwid ≡ cnt * cwid
    → recv cwid buf (make_packs head cwid data_ cnt 0 0 ++ rest) ≡ some (true, data_, rest)
unfolding recv make_packs
recv-make_packs head cwid data_ buf zero rest s h c p l a = absurd (omega arith)
recv-make_packs head cwid data_ buf (suc k) rest s h c p l a = ground (
  arith,
  length-append (make_packs head cwid data_ k 1 cwid) rest,
  length-make_packs head cwid data_ k 1 cwid,
  take_packs-make_packs head cwid data_ (suc k) 0 0 rest (omega arith),
  filled cwid data_ buf (suc k) h,
)

-- Without a wrap-around the alignment is the bytes of the packages.
aligned-small : (n cwid : ℕ) → 0 < cwid → n < 2 ^ 32 → aligned n cwid ≡ aligned n cwid / cwid * cwid
aligned-small n cwid w h =
    let small : cwid * (n / cwid) < 2 ^ 32 = omega (arith, mul-div-le n cwid, h) in
    let whole : aligned n cwid ≡ cwid * (n / cwid) = mod-eq_of_lt small in
    whole
    ∙ mul_comm cwid (n / cwid)
    ∙ ap (λ (m : ℕ). m * cwid) (sym (ap (λ (m : ℕ). m / cwid) whole ∙ mul-div_right (n / cwid) w))

-- The packages have room for the message.
pack_count-enough :
    (size cwid : ℕ) → 0 < cwid → size + cwid ≤ 2 ^ 32 → size ≤ pack_count size cwid * cwid
pack_count-enough size cwid w h =
    let n = size + cwid - 1 in
    let small : cwid * (n / cwid) < 2 ^ 32 = omega (arith, mul-div-le n cwid, h, w) in
    let whole : aligned n cwid ≡ cwid * (n / cwid) = mod-eq_of_lt small in
    omega (
      arith,
      lt-div-mul-add {a = n} w,
      whole,
      mul_comm cwid (n / cwid),
      aligned-small n cwid w (omega (arith, h, w)),
    )

positive : (n m : ℕ) {k : ℕ} → 0 < k → k ≤ n * m → 0 < n
positive zero m h l = absurd (omega arith)
positive (suc n) m h l = omega arith

-- A message that is not empty has packages.
pub pack_count-positive :
    (size cwid : ℕ) → 0 < cwid → 0 < size → size + cwid ≤ 2 ^ 32 → 0 < pack_count size cwid
pack_count-positive size cwid w s h =
    positive (pack_count size cwid) cwid s (pack_count-enough size cwid w h)

-- A message that is not empty, whose bytes and the width of the channel are no more than 2^32 together,
-- of fewer than 2^16 packages: what `send` puts into an
-- empty buffer `recv` takes out of a receive buffer, and it returns the message, whatever follows.
pub recv-send :
    (head : MsgPack) (cwid : ℕ) (data_ buf : List ℕ) (rest : List MsgPack)
    → 0 < cwid
    → 0 < length data_
    → length data_ + cwid ≤ 2 ^ 32
    → pack_count (length data_) cwid < 2 ^ 16
    → recv cwid buf ((send head cwid data_ []).1 ++ rest) ≡ some (true, data_, rest)
unfolding send
recv-send head cwid data_ buf rest w s l c =
    let cnt = pack_count (length data_) cwid in
    let n = length data_ + cwid - 1 in
    let len : length data_ % 2 ^ 32 ≡ length data_ = mod-eq_of_lt (omega (arith, l, w)) in
    let room : (length data_ % 2 ^ 32 + cwid - 1) % 2 ^ 32 ≡ n =
      ap (λ (m : ℕ). (m + cwid - 1) % 2 ^ 32) len ∙ mod-eq_of_lt (omega (arith, l, w)) in
    recv-make_packs (record head { len = length data_ % 2 ^ 32; pac_cnt = cnt % 2 ^ 16 }) cwid data_
      buf cnt rest s (pack_count-enough (length data_) cwid w l) (omega (arith, c)) (mod-eq_of_lt c)
      len (ap (λ (m : ℕ). aligned m cwid) room ∙ aligned-small n cwid w (omega (arith, l, w)))
