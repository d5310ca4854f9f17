-- ===== src/Moesi/Llc.antt =====
-- src/cache/moesi/lastlevelcache.h: the state of LLCMoesiDirNoi, one node of the last-level cache with
-- its directory, and the requests on their way through it. A RequestPackage is in one queue or buffer at
-- a time, so that it is modelled by value. Statistics, the trace and debug output are left out.
pub mod Fetch
pub mod Index
pub mod Puts
pub mod Stage
pub mod Process
pub mod Owners
pub mod Invalidations
pub mod Lost
pub mod Room
mod Tests
use nullrvsim.Prelude.{ℕ, ◌+◌, ◌*◌, ◌/◌, ◌%◌, Bool, false, ◌==◌, List, [], ◌∷◌, ◌++◌}
use nullrvsim.Cache.Lru.{Block, repeat}
use nullrvsim.TickQueue.{Queue}
use nullrvsim.Moesi.Message.{Msg, construct_msg_pack}
use nullrvsim.Moesi.L1.{Ready}

-- DirEntry; `exists` is in ascending order.
pub record DirEntry : Type 0 where
  pub exists : List ℕ
  pub owner : ℕ
  pub dirty : Bool

-- RequestPackage
pub record Package : Type 0 where
  pub type_ : ℕ
  pub lindex : ℕ
  pub arg : ℕ
  pub transid : ℕ
  pub index_cycle : ℕ
  pub blk_hit : Bool
  pub line_buf : List ℕ
  pub dir_hit : Bool
  pub entry : DirEntry
  pub blk_replaced : Bool
  pub lindex_replaced : ℕ
  pub need_send : List Ready
  pub delay_commit : Bool
  pub dir_evict : Bool

pub record Llc : Type 0 where
  pub my_port_id : ℕ
  pub nuca_num : ℕ
  pub nuca_index : ℕ
  pub index_cycle : ℕ
  pub recv_buf : List Msg
  pub recv_buf_size : ℕ
  pub processing_lindex : List ℕ
  pub block : Block (List ℕ)
  pub directory : Block DirEntry
  pub queue_index : Queue Package
  pub queue_writeback : Queue Package
  pub queue_index_result : Queue Package
  pub process_buf : List Package
  pub process_buf_size : ℕ

abbrev pub nuca_check : ℕ → Llc → Bool
nuca_check lindex r = lindex % r.nuca_num == r.nuca_index

abbrev pub lindex_to_nuca_tag : ℕ → Llc → ℕ
lindex_to_nuca_tag lindex r = lindex / r.nuca_num

abbrev pub nuca_tag_to_lindex : ℕ → Llc → ℕ
nuca_tag_to_lindex nuca_tag r = nuca_tag * r.nuca_num + r.nuca_index

-- `new RequestPackage`, which leaves the fields without an initial value as they come.
abbrev pub fresh : Package
fresh = record {
  type_ = 0;
  lindex = 0;
  arg = 0;
  transid = 0;
  index_cycle = 0;
  blk_hit = false;
  line_buf = repeat 64 0;
  dir_hit = false;
  entry = record { exists = []; owner = 0; dirty = false };
  blk_replaced = false;
  lindex_replaced = 0;
  need_send = [];
  delay_commit = false;
  dir_evict = false;
}

-- push_send_buf, with no data, and push_send_buf_with_line.
abbrev pub push_send_buf : ℕ → ℕ → ℕ → ℕ → ℕ → List ℕ → ℕ → Package → Package
push_send_buf dst channel type_ line arg linebuf transid pak =
    let tmp : Msg = record {
      type_ = type_;
      arg = arg;
      transid = transid;
      line = line;
      data_ = linebuf;
    } in
    record pak {
      need_send =
          pak.need_send ++ record { msg = construct_msg_pack tmp; dst = dst; cha = channel } ∷ [];
    }
