-- ===== src/Moesi/Llc/Invalidations.antt =====
-- What a node sends for MSG_GETM to a line that first-level caches have.
use nullrvsim.Prelude.{
  ℕ, ◌+◌, ◌≡◌, Bool, true, false, not, ◌==◌, ◌&&◌, ◌||◌, if◌then◌else◌, some, Bool-cases, inl, inr,
  List, [], ◌∷◌, ◌++◌, append_assoc, append-nil, map, length, arith,
}
use nullrvsim.Prelude.Sets.{contains}
use nullrvsim.Bus.Mapping.{BusPortMapping}
use nullrvsim.Moesi.Codes.MsgType
use nullrvsim.Moesi.Codes.Channel
use nullrvsim.Moesi.Message.{construct_msg_pack}
use nullrvsim.Moesi.L1.{Ready}
use nullrvsim.Moesi.Llc.{Package, push_send_buf}
use nullrvsim.Moesi.Llc.Index.{sole, invalidate, index_getm_held}

-- The caches that have to drop the line: not the one that asks, and not the owner if the request was
-- forwarded to it.
abbrev pub targets : List ℕ → ℕ → Bool → ℕ → List ℕ
targets [] l1 skip_owner owner = []
targets (other ∷ rest) l1 skip_owner owner =
    if other == l1 || (skip_owner && other == owner)
    then targets rest l1 skip_owner owner
    else other ∷ targets rest l1 skip_owner owner

-- A message of a package, without data.
abbrev pub plain : ℕ → ℕ → ℕ → ℕ → Package → Ready
plain dst channel type_ arg pak = record {
  msg =
      construct_msg_pack
        (record { type_ = type_; arg = arg; transid = pak.transid; line = pak.lindex; data_ = [] });
  dst = dst;
  cha = channel;
}

-- The message that tells a cache to drop the line.
abbrev pub drop_at : (ℕ → ℕ) → Package → ℕ → Ready
drop_at port pak l1 = plain (port l1) Channel.resp MsgType.invalid pak.arg pak

-- What is sent: the request to the owner, when the cache that asks does not have the line, a message
-- to each other cache that has it, and the number of those messages to the cache that asks.
abbrev pub getm_messages : (ℕ → ℕ) → ℕ → Package → List Ready
getm_messages port l1 pak =
    let skip_owner = not (contains l1 pak.entry.exists) in
    let told = targets pak.entry.exists l1 skip_owner pak.entry.owner in
    (if skip_owner
      then plain (port pak.entry.owner) Channel.req MsgType.getm_forward pak.arg pak ∷ []
      else [])
    ++ (map (drop_at port pak) told
        ++ plain pak.arg Channel.resp MsgType.getm_ack (length told) pak ∷ [])

module _ (busmap : BusPortMapping) (port : ℕ → ℕ) where
  -- The caches of a list have their ports.
  abbrev pub HavePorts : List ℕ → Type 0
  HavePorts [] = Unit
  HavePorts (l1 ∷ rest) = (busmap.get_reqnode_port l1 ≡ some (port l1)) × HavePorts rest

  invalidate_lem :
      (l : List ℕ) (l1 : ℕ) (skip_owner : Bool) (count : ℕ) (pak : Package)
      → HavePorts l
      → invalidate busmap l l1 skip_owner count pak
        ≡ some (
          count + length (targets l l1 skip_owner pak.entry.owner),
          record pak {
            need_send =
                pak.need_send ++ map (drop_at port pak) (targets l l1 skip_owner pak.entry.owner);
          },
        )
  unfolding invalidate
  invalidate_lem [] l1 skip_owner count pak known = ground (arith, append-nil pak.need_send)
  invalidate_lem (other ∷ rest) l1 skip_owner count pak known =
      let told =
        push_send_buf (port other) Channel.resp MsgType.invalid pak.lindex pak.arg [] pak.transid
          pak in
      ground (
        arith,
        known.0,
        invalidate_lem rest l1 skip_owner count pak known.1,
        invalidate_lem rest l1 skip_owner (count + 1) told known.1,
        append_assoc pak.need_send (drop_at port pak other ∷ [])
            (map (drop_at port pak) (targets rest l1 skip_owner pak.entry.owner)),
      )

  -- A request to write a line that first-level caches have is answered without a failed assertion when
  -- its owner and the caches that have it have ports: the owner is asked for the line unless the cache that asks has it, every
  -- other cache that has the line is told once to drop it, and the acknowledgement counts just these
  -- messages. The cache that asks is the only one in the new entry.
  pub index_getm_held_lem :
      (l1 : ℕ) (pak : Package)
      → busmap.get_reqnode_port pak.entry.owner ≡ some (port pak.entry.owner)
      → HavePorts pak.entry.exists
      → index_getm_held busmap l1 pak
        ≡ some (record pak {
          need_send = pak.need_send ++ getm_messages port l1 pak;
          entry = sole l1;
          delay_commit = true;
        })
  unfolding index_getm_held
  index_getm_held_lem l1 pak owned known =
      let owner = pak.entry.owner in
      let asked =
        push_send_buf (port owner) Channel.req MsgType.getm_forward pak.lindex pak.arg []
          pak.transid pak in
      elim (Bool-cases (contains l1 pak.entry.exists)) [
        | inl has ↦ ground (
          arith,
          owned,
          invalidate_lem pak.entry.exists l1 false 0 pak known,
          append_assoc pak.need_send
              (map (drop_at port pak) (targets pak.entry.exists l1 false owner))
              (plain pak.arg Channel.resp MsgType.getm_ack
                  (length (targets pak.entry.exists l1 false owner)) pak
                ∷ []),
        )
        | inr lacks ↦
            let fwd = plain (port owner) Channel.req MsgType.getm_forward pak.arg pak in
            let told = targets pak.entry.exists l1 true owner in
            let ack = plain pak.arg Channel.resp MsgType.getm_ack (length told) pak ∷ [] in
            ground (
              arith,
              owned,
              invalidate_lem pak.entry.exists l1 true 0 asked known,
              append_assoc (pak.need_send ++ fwd ∷ []) (map (drop_at port pak) told) ack,
              append_assoc pak.need_send (fwd ∷ []) (map (drop_at port pak) told ++ ack),
            )
      ]
