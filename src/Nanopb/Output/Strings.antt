-- ===== src/Nanopb/Output/Strings.antt =====
-- pb_encode_string on a stream over a buffer and on one that counts.
use test_gbksoft.Common.{ℕ, ◌+◌, ◌^◌, ◌≤◌, ◌<◌, ◌≡◌, refl, arith, Option, List, ◌++◌, length}
use test_gbksoft.Common.{length-append, length-drop, append_assoc, drop, drop-drop}
use test_gbksoft.Common.Outcome.{ok}
use test_gbksoft.Nanopb.Types.{ErrMsg, IsU64}
use test_gbksoft.Nanopb.Output.Buffer.{out, counting, write-out, write-counting}
use test_gbksoft.Nanopb.Output.Primitives.{encode_string}
use test_gbksoft.Nanopb.Varint.{varint_of}
use test_gbksoft.Nanopb.Varint.Encode.{encode_varint-write}

add_assoc : (a b c : ℕ) → a + b + c ≡ a + (b + c)
add_assoc a b c = omega arith

-- The bytes of a string field: its length and its bytes.
abbrev pub string_bytes : List ℕ → List ℕ
string_bytes payload = varint_of (length payload) ++ payload

module _ {τ : Type 0} where
  -- Where the limit of a stream over a buffer, a size_t, and the buffer leave room,
  -- pb_encode_string of a whole payload puts the shortest varint of its length and the payload
  -- behind the bytes stored so far, and counts them; on a stream without a callback it counts just
  -- as many.
  pub encode_string-out :
      (payload before after : List ℕ) (limit count : ℕ) (err : Option ErrMsg)
      → count + length (string_bytes payload) ≤ limit
      → limit < 2 ^ 64
      → length (string_bytes payload) ≤ length after
      → (encode_string payload (length payload) (out {τ = τ} before after limit count err)
          ≡ ok tt (
              out
                (before ++ string_bytes payload)
                (drop (length (string_bytes payload)) after)
                limit
                (count + length (string_bytes payload))
                err))
        × (encode_string payload (length payload) (counting {τ = τ} 0 count err)
            ≡ ok tt (counting 0 (count + length (string_bytes payload)) err))
  unfolding encode_string
  encode_string-out payload before after limit count err h1 h2 h3 =
      let prefix : List ℕ = varint_of (length payload) in
      let total : length (prefix ++ payload) ≡ length prefix + length payload =
        length-append prefix payload in
      let u64 : IsU64 (length payload) = omega arith in
      (
        rw
            (
              encode_varint-write (length payload) (out {τ = τ} before after limit count err) u64,
              write-out {τ = τ} prefix before after limit count err (omega arith) h2 (omega arith),
              write-out {τ = τ} payload (before ++ prefix) (drop (length prefix) after) limit
                  (count + length prefix) err (omega arith) h2
                  (omega (arith, length-drop (length prefix) after)),
              append_assoc before prefix payload,
              drop-drop (length payload) (length prefix) after,
              add_assoc count (length prefix) (length payload),
              total,
            )
            refl,
        rw
            (
              encode_varint-write (length payload) (counting {τ = τ} 0 count err) u64,
              write-counting {τ = τ} prefix 0 count err (omega arith),
              write-counting {τ = τ} payload 0 (count + length prefix) err (omega arith),
              add_assoc count (length prefix) (length payload),
              total,
            )
            refl,
      )
