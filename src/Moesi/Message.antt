-- ===== src/Moesi/Message.antt =====
-- src/cache/moesi/protocal.cpp: a message and its packet of bytes, lowest byte first.
use nullrvsim.Prelude.{
  ℕ, zero, suc, ◌+◌, ◌*◌, ◌/◌, ◌%◌, ltb, if◌then◌else◌, List, [], ◌∷◌, ◌++◌, length, take, drop,
}

-- CacheCohenrenceMsg
pub record Msg : Type 0 where
  pub type_ : ℕ
  pub arg : ℕ
  pub transid : ℕ
  pub line : ℕ
  pub data_ : List ℕ

-- The `n` bytes of a number in memory, and back.
unfoldable pub le_bytes : ℕ → ℕ → List ℕ
le_bytes zero v = []
le_bytes (suc n) v = v % 256 ∷ le_bytes n (v / 256)

unfoldable pub le_value : List ℕ → ℕ
le_value [] = 0
le_value (b ∷ bs) = b + 256 * le_value bs

abbrev pub head_size : ℕ
head_size = 20

unfoldable pub construct_msg_pack : Msg → List ℕ
construct_msg_pack msg =
    le_bytes 4 msg.type_
    ++ (le_bytes 4 msg.arg ++ (le_bytes 4 msg.transid ++ (le_bytes 8 msg.line ++ msg.data_)))

-- Into the message `msg`, which keeps its data when the packet has none.
unfoldable pub parse_msg_pack : List ℕ → Msg → Msg
parse_msg_pack buf msg = record {
  type_ = le_value (take 4 buf);
  arg = le_value (take 4 (drop 4 buf));
  transid = le_value (take 4 (drop 8 buf));
  line = le_value (take 8 (drop 12 buf));
  data_ = if ltb head_size (length buf) then drop head_size buf else msg.data_;
}
