-- ===== src/Moesi/Llc/Stage.antt =====
-- LLCMoesiDirNoi::p2_index: a package that is through is committed, or else the next request is indexed.
-- `none` is a failed assertion.
use nullrvsim.Prelude.{◌-◌, ltb, ◌==◌, ◌||◌, if◌then◌else◌, Option, none, some, set}
use nullrvsim.Cache.Lru
use nullrvsim.TickQueue
use nullrvsim.Bus.Mapping.{BusPortMapping}
use nullrvsim.TickQueue.{Queue}
use nullrvsim.Moesi.Codes.MsgType
use nullrvsim.Moesi.Llc.{Llc, Package, fresh, lindex_to_nuca_tag}
use nullrvsim.Moesi.Llc.Fetch.{release, is_dirty_put}
use nullrvsim.Moesi.Llc.Index.{index_gets, index_getm}
use nullrvsim.Moesi.Llc.Puts.{index_put_clean, index_put_dirty}

-- A package that is through: the directory takes its entry or loses the line's. An entry that another
-- one would have to go for fails an assertion.
unfoldable pub commit : Package → Llc → Option Llc
commit wb r =
    let tag = lindex_to_nuca_tag wb.lindex r in
    let finish = λ (s : Llc). if wb.delay_commit then s else release wb.lindex s in
    if wb.dir_evict
    then some (finish (record r { directory = Lru.remove_line tag r.directory }))
    else elim (Lru.insert_line tag wb.entry r.directory) [
      | none ↦ none
      | some (replaced, directory) ↦ elim replaced as (λ _. Option Llc) [
        | none ↦ some (finish (record r { directory = directory }))
        | some e ↦ none
      ]
    ]

-- `pak->index_cycle--` on the package that is on top of its queue.
abbrev pub wait_on : Package → Queue Package → Queue Package
wait_on pak q = record q {
  buf = set q.buf q.bottom (record pak { index_cycle = pak.index_cycle - 1 });
}

module _ (busmap : BusPortMapping) where
  -- The branches on the type of the request.
  unfoldable pub index : Package → Llc → Option (Package × Llc)
  index pak r =
      if pak.type_ == MsgType.gets
      then index_gets busmap pak r
      else if pak.type_ == MsgType.getm
      then index_getm busmap pak r
      else if pak.type_ == MsgType.puts || pak.type_ == MsgType.pute
      then index_put_clean busmap pak r
      else if is_dirty_put pak.type_
      then index_put_dirty busmap pak r
      else none

  -- The second half of p2_index: the top of `queue_index`.
  unfoldable pub index_next : Llc → Option Llc
  index_next r =
      if TickQueue.can_pop r.queue_index == 0 || TickQueue.can_push r.queue_index_result == 0
      then some r
      else elim (TickQueue.top fresh r.queue_index) [
        | none ↦ none
        | some pak ↦
            if ltb 1 pak.index_cycle
            then some (record r { queue_index = wait_on pak r.queue_index })
            else elim (TickQueue.pop r.queue_index) [
              | none ↦ none
              | some q ↦ elim (index pak (record r { queue_index = q })) [
                | none ↦ none
                | some (done, s) ↦
                    some (record s {
                      queue_index_result = (TickQueue.push done s.queue_index_result).1;
                    })
              ]
            ]
      ]

  unfoldable pub p2_index : Llc → Option Llc
  p2_index r =
      if TickQueue.can_pop r.queue_writeback == 0
      then index_next r
      else elim (TickQueue.top fresh r.queue_writeback) [
        | none ↦ none
        | some wb ↦ elim (commit wb r) [
          | none ↦ none
          | some s ↦ elim (TickQueue.pop s.queue_writeback) [
            | none ↦ none
            | some q ↦ some (record s { queue_writeback = q })
          ]
        ]
      ]
