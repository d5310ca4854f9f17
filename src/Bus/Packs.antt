-- ===== src/Bus/Packs.antt =====
-- src/bus/symmulcha.cpp: what SymmetricMultiChannelBus::send puts into the send buffer of a port and a
-- channel, and what recv makes of the receive buffer. Both fail an assertion for a port or a channel
-- that is not there. `cwid` is the width of the channel in bytes; numbers of packages are of 16 bits
-- and lengths of 32. The statistics and the time stamp are left out.
use nullrvsim.Prelude.{
  ℕ, zero, suc, ◌+◌, ◌-◌, ◌*◌, ◌/◌, ◌%◌, ◌^◌, min, Bool, true, false, not, ltb, ◌==◌, if◌then◌else◌,
  Option, none, some, List, [], ◌∷◌, ◌++◌, length, take, drop,
}
use nullrvsim.Cache.Lru.{repeat}

pub record MsgPack : Type 0 where
  pub src : ℕ
  pub dst : ℕ
  pub tgt : ℕ
  pub cha : ℕ
  pub xmtid : ℕ
  pub len : ℕ
  pub pac_idx : ℕ
  pub pac_cnt : ℕ
  pub data_ : List ℕ

-- ALIGN(x, cwid) as 32 bits keep it; `n` is x + cwid - 1.
abbrev pub aligned : ℕ → ℕ → ℕ
aligned n cwid = (cwid * (n / cwid)) % 2 ^ 32

-- The number of packages of a message of `size` bytes: `size` is of 64 bits, its aligned length of 32.
abbrev pub pack_count : ℕ → ℕ → ℕ
pack_count size cwid = aligned (size + cwid - 1) cwid / cwid

-- A package's bytes: those at `pos`, filled up with zeros.
unfoldable pub pack_data : ℕ → ℕ → List ℕ → List ℕ
pack_data cwid pos data_ =
    let n = min cwid (length data_ - pos) in take n (drop pos data_) ++ repeat (cwid - n) 0

-- The loop of `send`, with `k` packages to go; `head` has what they share.
unfoldable pub make_packs : MsgPack → ℕ → List ℕ → ℕ → ℕ → ℕ → List MsgPack
make_packs head cwid data_ zero i pos = []
make_packs head cwid data_ (suc k) i pos =
    record head { pac_idx = i % 2 ^ 16; data_ = pack_data cwid pos data_ }
    ∷ make_packs head cwid data_ k (i + 1) (pos + cwid)

-- Whether it sends, and the send buffer.
unfoldable pub send : MsgPack → ℕ → List ℕ → List MsgPack → Bool × List MsgPack
send head cwid data_ sbuf =
    if not (length sbuf == 0)
    then (false, sbuf)
    else (let cnt = pack_count (length data_) cwid in
        let head' = record head { len = length data_ % 2 ^ 32; pac_cnt = cnt % 2 ^ 16 } in
        (true, make_packs head' cwid data_ cnt 0 0))

unfoldable pub can_recv : List MsgPack → Bool
can_recv [] = false
can_recv (p ∷ rbuf) = not (ltb (length (p ∷ rbuf)) p.pac_cnt)

-- The loop of `recv`: the bytes and what is left; `none` is a failed assertion.
unfoldable pub take_packs : ℕ → ℕ → ℕ → List MsgPack → Option (List ℕ × List MsgPack)
take_packs cwid zero i rbuf = some ([], rbuf)
take_packs cwid (suc k) i [] = none
take_packs cwid (suc k) i (p ∷ rbuf) =
    let rest = take_packs cwid k (i + 1) rbuf in
    if not (i == p.pac_idx)
    then none
    else elim rest [ none ↦ none | some (buf, left) ↦ some (take cwid p.data_ ++ buf, left) ]

-- buf.resize(n)
unfoldable pub resize : ℕ → List ℕ → List ℕ
resize n l = take n l ++ repeat (n - length l) 0

-- Whether it receives, the bytes, and the receive buffer. The length and its alignment are of 32 bits;
-- `none` is a failed assertion, or bytes of packages that go past the end of `buf`.
unfoldable pub recv : ℕ → List ℕ → List MsgPack → Option (Bool × List ℕ × List MsgPack)
recv cwid buf [] = some (false, buf, [])
recv cwid buf (p ∷ rbuf) =
    let room = aligned ((p.len + cwid - 1) % 2 ^ 32) cwid in
    if ltb (length (p ∷ rbuf)) p.pac_cnt
    then some (false, buf, p ∷ rbuf)
    else if ltb room (p.pac_cnt * cwid)
    then none
    else elim (take_packs cwid p.pac_cnt 0 (p ∷ rbuf)) [
      | none ↦ none
      | some (bytes, left) ↦
          some (true, resize p.len (bytes ++ drop (length bytes) (resize room buf)), left)
    ]
