-- ===== src/Raft/LogEntry.antt =====
-- internal/raft/node.go (LogEntry, LogType) and the serialisation at the end of storage.go.
use agent_native_db.Prelude.{
  ℕ, ◌<◌, ◌^◌, ◌≡◌, Option, none, some, [], ◌∷◌, ◌++◌, length, take, drop, arith, ltb,
  if◌then◌else◌, take-append_of, drop-append_of, length-append, length-drop, sym, ap, ◌∙◌, ◌≢◌, ◌↔◌,
}
use mathlib.Core.List.{append_assoc}
use agent_native_db.Bytes.{Bytes}
use agent_native_db.Bytes.BigEndian.{u64tob, btou64, length-u64tob, btou64-u64tob}

-- LogType is a byte; these are its named values.
abbrev pub log_command : ℕ
log_command = 0

abbrev pub log_no_op : ℕ
log_no_op = 1

abbrev pub log_add_peer : ℕ
log_add_peer = 2

abbrev pub log_remove_peer : ℕ
log_remove_peer = 3

-- `content` is the field Data.
pub record LogEntry : Type 0 where
  pub index : ℕ
  pub term : ℕ
  pub type : ℕ
  pub content : Bytes

-- The fields are words of 64 bits and a byte.
pub record IsEntry (e : LogEntry) : Type 0 where
  pub index_fits : e.index < 2 ^ 64
  pub term_fits : e.term < 2 ^ 64

-- term(8) + index(8) + type(1) + data
unfoldable pub encode_log_entry : LogEntry → Bytes
encode_log_entry e = u64tob e.term ++ (u64tob e.index ++ e.type ∷ e.content)

-- data[16] and data[17:] of data that has 17 bytes at least.
log_entry_of : Bytes → Bytes → Option LogEntry
log_entry_of head [] = none
log_entry_of head (type ∷ content) = some (record {
  term = btou64 (take 8 head);
  index = btou64 (take 8 (drop 8 head));
  type = type;
  content = content;
})

-- `none` is the error "log entry too short".
unfoldable pub decode_log_entry : Bytes → Option LogEntry
unfolding log_entry_of
decode_log_entry bytes = if ltb (length bytes) 17 then none else log_entry_of bytes (drop 16 bytes)

drop_header :
    (t i r : Bytes)
    → length t ≡ 8
    → length i ≡ 8
    → (take 8 (t ++ (i ++ r)) ≡ t)
      × (take 8 (drop 8 (t ++ (i ++ r))) ≡ i)
      × (drop 16 (t ++ (i ++ r)) ≡ r)
drop_header t i r h k = (
  take-append_of 8 t (i ++ r) h,
  rw (drop-append_of 8 t (i ++ r) h) (take-append_of 8 i r k),
  ap (drop 16) (sym (append_assoc t i r))
      ∙ drop-append_of 16 (t ++ i) r (omega (arith, length-append t i)),
)

-- An entry whose index and term are words of 64 bits is decoded from its encoding unchanged.
pub decode-encode_log_entry :
    (e : LogEntry) → IsEntry e → decode_log_entry (encode_log_entry e) ≡ some e
unfolding decode_log_entry encode_log_entry
decode-encode_log_entry e v =
    let t = u64tob e.term in
    let i = u64tob e.index in
    let r : Bytes = e.type ∷ e.content in
    ground (
      arith,
      drop_header t i r (length-u64tob e.term) (length-u64tob e.index),
      length-append t (i ++ r),
      length-append i r,
      length-u64tob e.term,
      length-u64tob e.index,
      btou64-u64tob e.term v.term_fits,
      btou64-u64tob e.index v.index_fits,
    )

log_entry_of-some : (head rest : Bytes) → 0 < length rest → log_entry_of head rest ≢ none
unfolding log_entry_of
log_entry_of-some head [] h = absurd (omega arith)
log_entry_of-some head (b ∷ rest) h = λ e. cc

-- What is refused is exactly what is shorter than 17 bytes.
pub decode_log_entry-eq-none :
    (bytes : Bytes) → (decode_log_entry bytes ≡ none) ↔ (length bytes < 17)
unfolding decode_log_entry
decode_log_entry-eq-none bytes =
    ground (arith, log_entry_of-some bytes (drop 16 bytes), length-drop 16 bytes)
