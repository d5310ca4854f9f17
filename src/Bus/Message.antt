-- ===== src/Bus/Message.antt =====
-- A message from the port that sends it to the port that receives it, whatever the way of its packages.
use nullrvsim.Prelude.{
  ◌+◌, ◌≤◌, ℕ, ◌%◌, ◌^◌, ◌<◌, ◌≡◌, sym, ap, ◌∙◌, true, none, some, List, [], ◌++◌, length, get_or,
  set, get_or-set_self, append-nil, arith,
}
use mathlib.Core.List.{Permᴰ}
use native.Mathlib.Nat.{mod-eq_of_lt}
use nullrvsim.Prelude.Assoc.{find, assign, find-assign_self}
use nullrvsim.Prelude.Sets.{contains}
use nullrvsim.Bus.Packs.{MsgPack, pack_count, make_packs, send, recv}
use nullrvsim.Bus.Delivery.{recv-send, length-make_packs, pack_count-positive}
use nullrvsim.Bus.Node.{Node, Port, Wires, hand_over}
use nullrvsim.Bus.Reorder.{arrive_all, arrive_all-Perm, make_packs-Ascending, make_packs-OfMessage}

-- What the buffer of a port has for a channel afterwards.
hand_over-found :
    (own : List ℕ) (dst cha : ℕ) (packs : List MsgPack) (w : Wires) (p : Port)
    → contains dst own ≡ true
    → find dst w.ports ≡ some p
    → cha < length p.recv_buf
    → get_or p.recv_buf cha [] ≡ []
    → (v : Wires) × (q : Port) × (hand_over own dst cha packs w ≡ some v)
      × (find dst v.ports ≡ some q)
      × (get_or q.recv_buf cha [] ≡ packs)
unfolding hand_over
hand_over-found own dst cha packs w p mine known room free =
    let q = record p { recv_buf = set p.recv_buf cha (get_or p.recv_buf cha [] ++ packs) } in
    (
      record w { ports = assign dst q w.ports },
      q,
      ground arith,
      find-assign_self dst q w.ports,
      get_or-set_self p.recv_buf cha (get_or p.recv_buf cha [] ++ packs) [] room
          ∙ ap (λ l. l ++ packs) free,
    )

-- A message that is not empty, whose bytes and the width of the channel are no more than 2^32 together,
-- of fewer than 2^16 packages: in whatever order the packages that `send` makes of it reach the node of
-- its port, which the node has with the channel, the port then receives the message, when none of its
-- packages was waiting at the node and the port's buffer for its channel was empty.
pub recv-Perm :
    (head : MsgPack) (cwid : ℕ) (data_ buf : List ℕ) (ys : List MsgPack) (node : Node) (w : Wires)
    (p : Port)
    → 0 < cwid
    → 0 < length data_
    → length data_ + cwid ≤ 2 ^ 32
    → pack_count (length data_) cwid < 2 ^ 16
    → Permᴰ (send head cwid data_ []).1 ys
    → find head.xmtid node.order_buf ≡ none
    → contains head.dst node.port ≡ true
    → find head.dst w.ports ≡ some p
    → head.cha < length p.recv_buf
    → get_or p.recv_buf head.cha [] ≡ []
    → (n : Node) × (v : Wires) × (q : Port) × (arrive_all ys node w ≡ some (n, v))
      × (find head.dst v.ports ≡ some q)
      × (recv cwid buf (get_or q.recv_buf head.cha []) ≡ some (true, data_, []))
unfolding send
recv-Perm head cwid data_ buf ys node w p c d l small s fresh mine known room free =
    let cnt = pack_count (length data_) cwid in
    let whole : cnt % 2 ^ 16 ≡ cnt = mod-eq_of_lt small in
    let count : 0 < cnt = pack_count-positive (length data_) cwid c d l in
    let head' = record head { len = length data_ % 2 ^ 32; pac_cnt = cnt % 2 ^ 16 } in
    let packs = make_packs head' cwid data_ cnt 0 0 in
    let (v, q, handed, found, filled) =
      hand_over-found node.port head.dst head.cha packs w p mine known room free in
    let (n, run) =
      arrive_all-Perm head' packs ys node w {v = v} s
        (make_packs-Ascending head' cwid data_ cnt 0 0 (omega (arith, small)))
        (make_packs-OfMessage head' cwid data_ cnt 0 0)
        (length-make_packs head' cwid data_ cnt 0 0 ∙ sym whole) (omega (arith, count, whole)) fresh
        handed in
    (
      n,
      v,
      q,
      run,
      found,
      ap (recv cwid buf) (filled ∙ sym (append-nil packs))
          ∙ recv-send head cwid data_ buf [] c d l small,
    )
