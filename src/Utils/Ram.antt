-- ===== src/Utils/Ram.antt =====
-- src/utils/blockram.hpp: BlockRamRDFirst<DataT, AddrWidth, RDWidth, WRWidth>. `aw` is AddrWidth; the
-- cell at 2 ^ aw takes the writes of the ports that have none. The write ports of a memory with one
-- are valid or not, those of a memory with several say so by their address.
use nullrvsim.Prelude.{
  ℕ, zero, suc, ◌-◌, ◌^◌, ◌≡◌, ◌<◌, refl, bit_and, Bool, true, false, ltb, ◌==◌, ◌&&◌,
  if◌then◌else◌, List, [], ◌∷◌, length, length-set, get_or, set, arith,
}
use nullrvsim.Prelude.Assoc.{get_or-set}

pub record ToBeWriten {ℓ} (D : Type ℓ) : Type ℓ where
  pub addr : ℕ
  pub data_ : D
  pub valid : Bool

pub record BlockRam {ℓ} (D : Type ℓ) : Type ℓ where
  pub datas : List D
  pub to_be_writens : List (ToBeWriten D)
  pub to_be_read_addrs : List ℕ
  pub read_datas : List D

module _ {ℓ} {D : Type ℓ} (aw : ℕ) (blank : D) where
  unfoldable pub read_req : ℕ → ℕ → BlockRam D → BlockRam D
  read_req portidx addr s = record s {
    to_be_read_addrs = set s.to_be_read_addrs portidx (bit_and addr (2 ^ aw - 1));
  }

  unfoldable pub read_resp : ℕ → BlockRam D → D
  read_resp portidx s = get_or s.read_datas portidx blank

  unfoldable pub write_req : ℕ → ℕ → D → BlockRam D → BlockRam D
  write_req portidx addr data_ s = record s {
    to_be_writens =
        set s.to_be_writens portidx
          (record { addr = bit_and addr (2 ^ aw - 1); data_ = data_; valid = true });
  }

  unfoldable pub read_all : List D → List ℕ → List D
  read_all datas [] = []
  read_all datas (a ∷ addrs) = get_or datas a blank ∷ read_all datas addrs

  -- Several write ports: each writes, and is then sent to the spare cell.
  unfoldable pub write_all : List (ToBeWriten D) → List D → List D
  write_all [] datas = datas
  write_all (w ∷ ws) datas = write_all ws (set datas w.addr w.data_)

  unfoldable pub invalidate : List (ToBeWriten D) → List (ToBeWriten D)
  invalidate [] = []
  invalidate (w ∷ ws) = record w { addr = 2 ^ aw } ∷ invalidate ws

  unfoldable pub apply_next_tick : BlockRam D → BlockRam D
  apply_next_tick s = record {
    datas = write_all s.to_be_writens s.datas;
    to_be_writens = invalidate s.to_be_writens;
    to_be_read_addrs = s.to_be_read_addrs;
    read_datas = read_all s.datas s.to_be_read_addrs;
  }

  -- One write port.
  unfoldable pub apply_next_tick_single : ToBeWriten D → BlockRam D → ToBeWriten D × BlockRam D
  apply_next_tick_single w s = (
    record w { valid = false },
    record s {
      datas = if w.valid then set s.datas w.addr w.data_ else s.datas;
      read_datas = read_all s.datas s.to_be_read_addrs;
    },
  )

  -- The data that the last port with a write to the address has, or else the old data.
  abbrev pub last_write : ℕ → D → List (ToBeWriten D) → D
  last_write a old [] = old
  last_write a old (w ∷ ws) = last_write a (if a == w.addr then w.data_ else old) ws

  abbrev pub in_memory : ℕ → List (ToBeWriten D) → Bool
  in_memory n [] = true
  in_memory n (w ∷ ws) = ltb w.addr n && in_memory n ws

  write_all-get_or :
      (ws : List (ToBeWriten D)) (datas : List D) (a : ℕ)
      → in_memory (length datas) ws ≡ true
      → get_or (write_all ws datas) a blank ≡ last_write a (get_or datas a blank) ws
  unfolding write_all
  write_all-get_or [] datas a h = refl
  write_all-get_or (w ∷ ws) datas a h =
      let step : get_or (write_all ws (set datas w.addr w.data_)) a blank
          ≡ last_write a (get_or (set datas w.addr w.data_) a blank) ws =
        write_all-get_or ws (set datas w.addr w.data_) a
          (ground (arith, length-set datas w.addr w.data_)) in
      rw (step, get_or-set datas w.addr a w.data_ blank (ground arith)) refl

  read_all-get_or :
      (addrs : List ℕ) (datas : List D) (port a : ℕ)
      → port < length addrs
      → get_or (read_all datas addrs) port blank ≡ get_or datas (get_or addrs port a) blank
  unfolding read_all
  read_all-get_or [] datas port a h = absurd (omega arith)
  read_all-get_or (b ∷ addrs) datas zero a h = refl
  read_all-get_or (b ∷ addrs) datas (suc port) a h =
      read_all-get_or addrs datas port a (omega arith)

  -- A cycle of a memory with several write ports, none out of range: a read port answers with what
  -- was at its address before the writes of the cycle, and afterwards each address has the data of
  -- the last port that writes there, or what it had.
  pub apply_next_tick-ports :
      (s : BlockRam D) (port a : ℕ)
      → port < length s.to_be_read_addrs
      → in_memory (length s.datas) s.to_be_writens ≡ true
      → (read_resp port (apply_next_tick s)
          ≡ get_or s.datas (get_or s.to_be_read_addrs port 0) blank)
        × (get_or (apply_next_tick s).datas a blank
            ≡ last_write a (get_or s.datas a blank) s.to_be_writens)
  unfolding read_resp apply_next_tick
  apply_next_tick-ports s port a h k = (
    read_all-get_or s.to_be_read_addrs s.datas port 0 h,
    write_all-get_or s.to_be_writens s.datas a k,
  )
