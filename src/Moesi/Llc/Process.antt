-- ===== src/Moesi/Llc/Process.antt =====
-- LLCMoesiDirNoi::p3_process and the cycle. What is sent on the bus is a result; `room` says for each
-- channel whether the bus can take a message.
use nullrvsim.Prelude.{
  ℕ, Bool, false, ltb, not, ◌==◌, ◌&&◌, if◌then◌else◌, Option, none, some, List, [], ◌∷◌, ◌++◌,
  length, get_or, set,
}
use nullrvsim.TickQueue
use nullrvsim.Bus.Mapping.{BusPortMapping}
use nullrvsim.Moesi.L1.{Ready}
use nullrvsim.Moesi.Llc.{Llc, Package, fresh}
use nullrvsim.Moesi.Llc.Fetch.{p1_fetch}
use nullrvsim.Moesi.Llc.Stage.{p2_index}

-- The loop over the messages of one package: what is sent, what stays, and the room that is left.
unfoldable pub send_each : List Bool → List Ready → List Ready × List Ready × List Bool
send_each room [] = ([], [], room)
send_each room (m ∷ rest) =
    let go = get_or room m.cha false in
    let (sent, left, after) = send_each (if go then set room m.cha false else room) rest in
    if go then (m ∷ sent, left, after) else (sent, m ∷ left, after)

-- The loop over the packages.
unfoldable pub send_all : List Bool → List Package → List Ready × List Package
send_all room [] = ([], [])
send_all room (pak ∷ rest) =
    let (sent, left, after) = send_each room pak.need_send in
    let (later, packages) = send_all after rest in
    (sent ++ later, record pak { need_send = left } ∷ packages)

-- The first package with nothing left to send, and the others.
unfoldable pub finished : List Package → Option (Package × List Package)
finished [] = none
finished (pak ∷ rest) =
    let later = finished rest in
    elim pak.need_send [
      | [] ↦ some (pak, rest)
      | m ∷ ms ↦ elim later [ none ↦ none | some (found, left) ↦ some (found, pak ∷ left) ]
    ]

-- A result of the index stage comes into the buffer.
unfoldable pub take_result : Llc → Option Llc
take_result r =
    if ltb (length r.process_buf) r.process_buf_size
      && not (TickQueue.can_pop r.queue_index_result == 0)
    then elim (TickQueue.top fresh r.queue_index_result) [
      | none ↦ none
      | some pak ↦ elim (TickQueue.pop r.queue_index_result) [
        | none ↦ none
        | some q ↦
            some (record r { process_buf = r.process_buf ++ pak ∷ []; queue_index_result = q })
      ]
    ]
    else some r

unfoldable pub retire : Llc → Llc
retire r = if TickQueue.can_push r.queue_writeback == 0 then r else elim (finished r.process_buf) [
  | none ↦ r
  | some (pak, left) ↦ record r {
    queue_writeback = (TickQueue.push pak r.queue_writeback).1;
    process_buf = left;
  }
]

unfoldable pub p3_process : List Bool → Llc → Option (List Ready × Llc)
p3_process room r = elim (take_result r) [
  | none ↦ none
  | some s ↦
      let (sent, packages) = send_all room s.process_buf in
      some (sent, retire (record s { process_buf = packages }))
]

module _ (busmap : BusPortMapping) where
  unfoldable pub on_current_tick :
      List (Option (List ℕ)) → List Bool → Llc → Option (List Ready × Llc)
  on_current_tick ports room r = elim (p1_fetch ports r) [
    | none ↦ none
    | some s ↦ elim (p2_index busmap s) [ none ↦ none | some t ↦ p3_process room t ]
  ]

unfoldable pub apply_next_tick : Llc → Llc
apply_next_tick r = record r {
  queue_index = TickQueue.apply_next_tick r.queue_index;
  queue_writeback = TickQueue.apply_next_tick r.queue_writeback;
  queue_index_result = TickQueue.apply_next_tick r.queue_index_result;
}
