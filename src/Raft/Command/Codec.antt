-- ===== src/Raft/Command/Codec.antt =====
-- Commands through their serialisation.
use agent_native_db.Prelude.{
  ◌+◌, ◌<◌, ◌≤◌, ◌^◌, ◌≡◌, refl, ap, ◌∙◌, length, take, drop, take_all, take-append_of,
  drop-append_of, length-append, arith,
}
use agent_native_db.Bytes.{Bytes}
use agent_native_db.Bytes.BigEndian.{be, from_be, length-be, from_be-be}
use agent_native_db.Raft.Command.{
  Cmd, CmdJson, decoded, panics, encode_cmd, decode_cmd, body_end, byte_at,
}

module _ (j : CmdJson) where
  body_end-encode_cmd :
      (c : Cmd)
      → length (j.marshal c) + 5 < 2 ^ 32
      → body_end j (encode_cmd j c) ≡ length (j.marshal c) + 5
  unfolding encode_cmd
  body_end-encode_cmd c h =
      let n = length (j.marshal c) in
      omega (
        arith,
        ap (from_be 0) (take-append_of 4 (be 4 n) (j.marshal c) (length-be 4 n)),
        from_be-be 4 0 n,
      )

  length-encode_cmd : (c : Cmd) → length (encode_cmd j c) ≡ length (j.marshal c) + 5
  unfolding encode_cmd
  length-encode_cmd c =
      let n = length (j.marshal c) in
      omega (arith, length-append (be 4 n) (j.marshal c), length-be 4 n)

  body-encode_cmd : (c : Cmd) → drop 5 (encode_cmd j c) ≡ j.marshal c
  unfolding encode_cmd
  body-encode_cmd c =
      let n = length (j.marshal c) in drop-append_of 4 (be 4 n) (j.marshal c) (length-be 4 n)

  -- A command whose JSON has fewer than 2^32 - 5 bytes is decoded from its encoding.
  pub decode-encode_cmd :
      (c : Cmd) → length (j.marshal c) + 5 < 2 ^ 32 → decode_cmd j (encode_cmd j c) ≡ decoded c
  unfolding decode_cmd
  decode-encode_cmd c h =
      let end = body_end-encode_cmd c h in
      let len = length-encode_cmd c in
      let whole : drop 5 (take (body_end j (encode_cmd j c)) (encode_cmd j c)) ≡ j.marshal c =
        rw end (
          ap (drop 5) (take_all (length (j.marshal c) + 5) (encode_cmd j c) len)
          ∙ body-encode_cmd c) in
      let type : byte_at 0 (encode_cmd j c) ≡ c.type = unfold byte_at encode_cmd in refl in
      ground (arith, end, len, whole, type, j.unmarshal-marshal c)

  -- A length field within 5 of 2^32 wraps around in `5+bodyLen`, passes the check, and the slice
  -- panics, whatever the rest of the data is.
  pub decode_cmd-panics :
      (bytes : Bytes)
      → 5 ≤ length bytes
      → 2 ^ 32 ≤ 5 + from_be 0 (take 4 (drop 1 bytes))
      → from_be 0 (take 4 (drop 1 bytes)) < 2 ^ 32
      → decode_cmd j bytes ≡ panics
  unfolding decode_cmd
  decode_cmd-panics bytes h w f = ground arith
