-- ===== src/Moesi/L1.antt =====
-- src/cache/moesi/l1cachev2.h: the state of the first-level cache, and the small steps that its
-- methods are made of. Statistics and debug output are left out, and the clock that only they read.
-- The bus is seen through its ports: what arrives on them is an argument of the methods that receive,
-- and what the cache has to send lies in `send_buf`.
pub mod Access
pub mod Forward
pub mod Install
pub mod Handle
pub mod Port
pub mod Pushing
pub mod Capacity
pub mod Placing
pub mod Separate
pub mod Order
pub mod Progress
pub mod Keeping
pub mod Occupancy
pub mod Reservation
pub mod Memory
use nullrvsim.Prelude.{
  ℕ, ◌+◌, ◌/◌, ◌^◌, Bool, true, false, leb, Option, none, some, List, [], ◌∷◌, ◌++◌, length,
}
use nullrvsim.Prelude.Assoc.{assign}
use nullrvsim.Cache.Lru
use nullrvsim.Cache.Lru.{Block, repeat}
use nullrvsim.Cache.Mshr
use nullrvsim.Cache.Mshr.{Mshr}
use nullrvsim.Moesi.Message.{Msg, construct_msg_pack}

-- TagedCacheLine: the bytes of the line, and its CC_ state.
pub record Line : Type 0 where
  pub bytes : List ℕ
  pub state : ℕ

-- MSHREntry
pub record Entry : Type 0 where
  pub line_buf : List ℕ
  pub state : ℕ
  pub get_data_ready : ℕ
  pub get_ack_cnt_ready : ℕ
  pub need_invalid_ack : ℕ
  pub invalid_ack : ℕ

-- ReadyToSend
pub record Ready : Type 0 where
  pub msg : List ℕ
  pub dst : ℕ
  pub cha : ℕ

-- ArrivalLine
pub record Arrival : Type 0 where
  pub lindex : ℕ
  pub readonly : Bool
  pub bytes : List ℕ

pub record Cache : Type 0 where
  pub has_recieved : Bool
  pub has_processed : Bool
  pub msgbuf : Msg
  pub my_port_id : ℕ
  pub send_buf : List Ready
  pub send_buf_size : ℕ
  pub block : Block Line
  pub mshrs : Mshr Entry
  pub newlines : List Arrival
  pub arrivals : List Arrival
  pub reserved_address_valid : Bool
  pub reserved_address : ℕ

abbrev pub line_len : ℕ
line_len = 64

abbrev pub addr_to_line_index : ℕ → ℕ
addr_to_line_index addr = addr / 64

-- What memset leaves of an entry.
abbrev pub zeroed : Entry
zeroed = record {
  line_buf = repeat 64 0;
  state = 0;
  get_data_ready = 0;
  get_ack_cnt_ready = 0;
  need_invalid_ack = 0;
  invalid_ack = 0;
}

abbrev pub push_send_buf : ℕ → ℕ → ℕ → ℕ → ℕ → List ℕ → Cache → Cache
push_send_buf dst channel type_ line arg bytes r =
    let tmp : Msg = record { type_ = type_; arg = arg; transid = 0; line = line; data_ = bytes } in
    record r {
      send_buf =
          r.send_buf ++ record { msg = construct_msg_pack tmp; dst = dst; cha = channel } ∷ [];
    }

-- `send_buf.size() + n <= send_buf_size`
abbrev pub has_room : ℕ → Cache → Bool
has_room n r = leb (length r.send_buf + n) r.send_buf_size

-- A write through the pointer to an entry.
abbrev pub put_entry : ℕ → Entry → Cache → Cache
put_entry lindex e r = record r {
  mshrs = record r.mshrs { hashmap = assign lindex e r.mshrs.hashmap };
}

-- A write through the pointer to a line.
unfoldable pub put_line : ℕ → Line → Cache → Cache
put_line lindex p r = record r {
  block = Lru.store lindex (assign lindex p (Lru.set_of r.block lindex)) r.block;
}

unfoldable pub remove_line : ℕ → Cache → Cache
remove_line lindex r = record r { block = Lru.remove_line lindex r.block }

unfoldable pub get_line : ℕ → Cache → Option Line
get_line lindex r = (Lru.get_line lindex false r.block).0

unfoldable pub get_entry : ℕ → Cache → Option Entry
get_entry lindex r = Mshr.get lindex r.mshrs
