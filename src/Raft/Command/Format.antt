-- ===== src/Raft/Command/Format.antt =====
-- A serialisation with the behaviour that the commands rely on, for their examples.
use agent_native_db.Prelude.{
  ℕ, zero, suc, ◌≡◌, refl, Option, some, List, [], ◌∷◌, ◌++◌, length, take, drop, take-append_of,
  drop-append_of,
}
use agent_native_db.Bytes.{Bytes}
use agent_native_db.Storage.Engine.{WriteOp, OpType, put, delete}
use agent_native_db.Raft.Command.{Cmd, CmdJson}

-- A length and the bytes, before the rest.
unfoldable pub with_length : Bytes → Bytes → Bytes
with_length b rest = length b ∷ (b ++ rest)

unfoldable pub first_part : Bytes → Bytes
first_part [] = []
first_part (n ∷ bs) = take n bs

unfoldable pub behind_part : Bytes → Bytes
behind_part [] = []
behind_part (n ∷ bs) = drop n bs

pub first_part-with_length : (b rest : Bytes) → first_part (with_length b rest) ≡ b
unfolding first_part with_length
first_part-with_length b rest = take-append_of (length b) b rest refl

pub behind_part-with_length : (b rest : Bytes) → behind_part (with_length b rest) ≡ rest
unfolding behind_part with_length
behind_part-with_length b rest = drop-append_of (length b) b rest refl

type_byte : OpType → ℕ
type_byte put = 0
type_byte delete = 1

type_of : ℕ → OpType
type_of zero = put
type_of (suc n) = delete

type_of-type_byte : (t : OpType) → type_of (type_byte t) ≡ t
unfolding type_of type_byte
type_of-type_byte put = refl
type_of-type_byte delete = refl

write_all_ops : List WriteOp → Bytes
write_all_ops [] = []
write_all_ops (op ∷ ops) =
    type_byte op.type ∷ with_length op.key (with_length op.value (write_all_ops ops))

read_ops : ℕ → Bytes → List WriteOp
read_ops zero bs = []
read_ops (suc n) [] = []
read_ops (suc n) (t ∷ bs) =
    record { type = type_of t; key = first_part bs; value = first_part (behind_part bs) }
    ∷ read_ops n (behind_part (behind_part bs))

read-write_all_ops : (ops : List WriteOp) → read_ops (length ops) (write_all_ops ops) ≡ ops
unfolding read_ops write_all_ops
read-write_all_ops [] = refl
read-write_all_ops (op ∷ ops) =
    let tail = with_length op.value (write_all_ops ops) in
    rw
      (
        type_of-type_byte op.type,
        first_part-with_length op.key tail,
        behind_part-with_length op.key tail,
        first_part-with_length op.value (write_all_ops ops),
        behind_part-with_length op.value (write_all_ops ops),
        read-write_all_ops ops,
      )
      refl

pub write_cmd : Cmd → Bytes
write_cmd c = c.type ∷ length c.ops ∷ with_length c.key (with_length c.value (write_all_ops c.ops))

pub read_cmd : Bytes → Option Cmd
read_cmd (t ∷ n ∷ bs) = some (record {
  type = t;
  key = first_part bs;
  value = first_part (behind_part bs);
  ops = read_ops n (behind_part (behind_part bs));
})
read_cmd _ = Option.none

pub read-write_cmd : (c : Cmd) → read_cmd (write_cmd c) ≡ some c
unfolding read_cmd write_cmd
read-write_cmd c =
    let tail = with_length c.value (write_all_ops c.ops) in
    rw
      (
        first_part-with_length c.key tail,
        behind_part-with_length c.key tail,
        first_part-with_length c.value (write_all_ops c.ops),
        behind_part-with_length c.value (write_all_ops c.ops),
        read-write_all_ops c.ops,
      )
      refl

unfoldable pub format : CmdJson
unfolding write_cmd read_cmd with_length write_all_ops type_byte first_part behind_part read_ops
    type_of
format = record { marshal = write_cmd; unmarshal = read_cmd; unmarshal-marshal = read-write_cmd }
