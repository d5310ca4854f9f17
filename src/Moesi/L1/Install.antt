-- ===== src/Moesi/L1/Install.antt =====
-- handle_new_line_nolock: a line that arrived goes into the block, and another may have to go home.
-- `home` is busmap->get_homenode_port.
use nullrvsim.Prelude.{ℕ, ◌==◌, if◌then◌else◌, Option, none, some, List, [], ◌∷◌, ◌++◌}
use nullrvsim.Cache.Lru
use nullrvsim.Cache.Mshr
use nullrvsim.Moesi.Codes.LineState
use nullrvsim.Moesi.Codes.Pending
use nullrvsim.Moesi.Codes.MsgType
use nullrvsim.Moesi.Codes.Channel
use nullrvsim.Moesi.L1.{Line, Entry, Cache, zeroed, push_send_buf, has_room, put_entry}
use nullrvsim.Moesi.L1.Forward.{Handled, failed, later, done, remove_entry}

-- The state of an entry for a line that is written back, the type of the message, and its data.
unfoldable pub write_back : Line → Option (ℕ × ℕ × List ℕ)
write_back p =
    if p.state == LineState.exclusive
    then some (Pending.etoi, MsgType.pute, [])
    else if p.state == LineState.modified
    then some (Pending.mtoi, MsgType.putm, p.bytes)
    else if p.state == LineState.shared
    then some (Pending.stoi, MsgType.puts, [])
    else if p.state == LineState.owned
    then some (Pending.otoi, MsgType.puto, p.bytes)
    else none

-- The acknowledgement to the home node, then the line.
abbrev pub acknowledge : ℕ → ℕ → Cache → Cache
acknowledge l2_port lindex r =
    push_send_buf l2_port Channel.ack MsgType.get_ack lindex r.my_port_id [] r

module _ (home : ℕ → Option ℕ) where
  -- The replaced line gets an entry, and is sent home.
  unfoldable pub evict : ℕ → Line → Cache → Option Cache
  evict replaced p r = elim (Mshr.alloc zeroed replaced r.mshrs) [
    | none ↦ none
    | some mshrs ↦ elim (home replaced) [
      | none ↦ none
      | some l2_port ↦ elim (write_back p) [
        | none ↦ none
        | some (pending, type_, bytes) ↦ some (
            push_send_buf l2_port Channel.req type_ replaced r.my_port_id bytes (
              put_entry replaced (record zeroed { line_buf = p.bytes; state = pending })
                (record r { mshrs = mshrs })))
      ]
    ]
  ]

  -- handle_new_line_nolock: the line of the entry `e` goes into the block.
  unfoldable pub handle_new_line : ℕ → Entry → ℕ → Cache → Option Cache
  handle_new_line lindex e init_state r = elim (home lindex) [
    | none ↦ none
    | some l2_port ↦
        elim (Lru.insert_line lindex (record { bytes = e.line_buf; state = init_state }) r.block) [
          | none ↦ none
          | some (replaced, block) ↦
              let s = remove_entry lindex (record r {
                block = block;
                newlines =
                    r.newlines
                    ++ record {
                      lindex = lindex;
                      readonly = init_state == LineState.shared;
                      bytes = e.line_buf;
                    }
                      ∷ [];
              }) in
              elim replaced [ none ↦ some s | some (victim, p) ↦ evict victim p s ]
        ]
  ]

  -- Handing over the line ends a handler.
  unfoldable pub install : ℕ → Entry → ℕ → Cache → Handled
  install lindex e init_state r = elim (handle_new_line lindex e init_state r) [
    | none ↦ failed
    | some s ↦ done s
  ]

  -- A request for ownership is through: with two free places the line is installed.
  unfoldable pub finish_getm : ℕ → ℕ → Entry → Cache → Handled
  finish_getm l2_port lindex e r =
      if has_room 2 r
      then install lindex e LineState.modified (acknowledge l2_port lindex r)
      else later
