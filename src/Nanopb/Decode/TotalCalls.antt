-- ===== src/Nanopb/Decode/TotalCalls.antt =====
-- pb_decode, its variants and pb_dec_submessage on every input.
use test_gbksoft.Common.{
  ℕ, zero, suc, ◌≤◌, ◌<◌, ◌≡◌, ◌≢◌, refl, arith, Bool, true, false, ◌==◌, if◌then◌else◌, Option,
  some, List, length, get_elem?,
}
use test_gbksoft.Common.Outcome.{Outcome, fail, M, bind_outcome}
use test_gbksoft.Nanopb.Types.{Field, fields, ErrMsg, IsByte, ltype, htype, atype}
use test_gbksoft.Nanopb.Types.Htype
use test_gbksoft.Nanopb.Types.Atype
use test_gbksoft.Nanopb.Memory.{Mem}
use test_gbksoft.Nanopb.Input.Buffer.{at}
use test_gbksoft.Common.{All}
use test_gbksoft.Nanopb.Input.Ahead.{Fits}
use test_gbksoft.Nanopb.Encode.Schema.{IsField, IsSchema, All-get}
use test_gbksoft.Nanopb.Decode.State.{DecState}
use test_gbksoft.Nanopb.Decode.Env.{Env, answer, on_mem}
use test_gbksoft.Nanopb.Decode.Values.{decoder}
use test_gbksoft.Nanopb.Decode.Default.{set_to_defaults, field_default, message_defaults}
use test_gbksoft.Nanopb.Decode.Defaulted.{IsDefault, set_to_defaults-Returns}
use test_gbksoft.Nanopb.Decode.Release.{release, release_single_field}
use test_gbksoft.Nanopb.Decode.Calls.{
  released, decode_with, finish_sub, in_substream, dec_submessage, decode_noinit, decode,
  decode_delimited,
}
use test_gbksoft.Nanopb.Decode.Total.{
  Finishes, finishes_ok, finishes_fail, Finishes-from, Total, Total-bind, Total-fail, Total-weaken,
}
use test_gbksoft.Nanopb.Decode.TotalValues.{Free}
use test_gbksoft.Nanopb.Decode.TotalDecoders.{decoder-Total}
use test_gbksoft.Nanopb.Decode.TotalSub.{Resumes, close-Resumes, answer-Total, substream-Total}
use test_gbksoft.Nanopb.Decode.TotalStatic.{on_mem-Total}
use test_gbksoft.Nanopb.Decode.TotalIter.{not_extension}
use test_gbksoft.Nanopb.Decode.TotalCallback.{IsCallback}
use test_gbksoft.Nanopb.Decode.TotalField.{IsDecodable}
use test_gbksoft.Nanopb.Decode.TotalRelease.{release-Total, release_single_field-Total}
use test_gbksoft.Nanopb.Decode.TotalFinish.{IsSound}
use test_gbksoft.Nanopb.Decode.TotalMessage.{message_loop-Total, decode_message-Total}
use test_gbksoft.Nanopb.Decode.Message.{Progress, message_loop}

module _ {σ η : Type 0} (env : Env σ η) (schema : IsSchema env.table)
    (defaults : (k i : ℕ) (f : Field) → get_elem? (env.table k) i ≡ some f → IsDefault f)
    (sized : (k i : ℕ) (f : Field)
      → get_elem? (env.table k) i ≡ some f
      → atype f.type ≡ Atype.pointer
      → ltype f.type ≤ 4
      → f.data_size ≢ 0)
    (callbacks : (callback : ℕ) (f : Field) (arg : ℕ)
      → IsCallback (env.decode_callback callback f arg))
    (lists : ℕ) where
  released-Total :
      (left : ℕ) (release_all m : M (DecState σ η) (Unit {0}))
      → ((l : ℕ) → Total l Free release_all)
      → Total left Free m
      → Total left Free (λ s. released env lists release_all (m s))
  unfolding released
  released-Total left release_all m hr hm = record {
    ends = λ bs err mem heap fits. after fits (hm.ends bs err mem heap fits);
  }
    where
      failing :
          (l : ℕ)
          → Total {σ = σ} {η = η} {A = Unit {0}} l Free
              (λ s. bind_outcome (release_all s) (λ u. fail))
      failing l = Total-bind Free release_all _ (hr l) (λ v l' le q. Total-fail)

      after :
          {bs : List ℕ} {o : Outcome (DecState σ η) (Unit {0})}
          → Fits bs left
          → Finishes bs left Free o
          → Finishes bs left Free (released env lists release_all o)
      after fits (finishes_ok v w q) = finishes_ok tt w tt
      after fits (finishes_fail {s} w) =
          Finishes-from (λ s. bind_outcome (release_all s) (λ u. fail)) s w fits (failing w.left')

  decode_with-Total :
      (noinit : M (DecState σ η) (Unit {0})) (fuel k dest left : ℕ)
      → k < fuel
      → ((l : ℕ) → Total l Free noinit)
      → Total left Free (decode_with env lists noinit fuel k dest)
  unfolding decode_with
  decode_with-Total noinit fuel k dest left lt h =
      Total-bind Free (on_mem (set_to_defaults env.table lists fuel k dest)) _
        (on_mem-Total left _
          (λ mem. set_to_defaults-Returns env.table schema defaults lists fuel k dest mem lt))
        (λ v l le q.
          released-Total l (release env lists fuel k dest) noinit
            (λ l'. release-Total env schema lists fuel k dest l' lt) (h l))

  finish_sub-Resumes :
      (size l : ℕ) (status : Option (Unit {0})) → Resumes size l (finish_sub env lists) status
  unfolding finish_sub
  finish_sub-Resumes size l status = close-Resumes size l answer status (answer-Total status)

  in_substream-Total :
      (left : ℕ) (m : M (DecState σ η) (Unit {0}))
      → ((l : ℕ) → Total l Free m)
      → Total left Free (in_substream env lists m)
  unfolding in_substream
  in_substream-Total left m h =
      substream-Total Free (λ size. m) (finish_sub env lists) h finish_sub-Resumes

  dec_submessage-Total :
      (noinit : ℕ → ℕ → M (DecState σ η) (Unit {0})) (fuel k left dest : ℕ) (f : Field)
      → f.ptr ≡ fields k
      → k < fuel
      → ((k dest l : ℕ) → k < fuel → Total l Free (noinit k dest))
      → Total left Free (dec_submessage env lists noinit fuel f dest)
  unfolding dec_submessage
  dec_submessage-Total noinit fuel k left dest f e lt h = record {
    ends = λ bs err mem heap fits. rw (dec_submessage, e) (body.ends bs err mem heap fits);
  }
    where
      body : Total {σ = σ} {η = η} left Free (
          in_substream env lists (
            if htype f.type == Htype.repeated
            then decode_with env lists (noinit k dest) fuel k dest
            else noinit k dest))
      body = in_substream-Total left _ λ l. by_type (htype f.type == Htype.repeated) l
        where
          by_type :
              (b : Bool) (l : ℕ)
              → Total {σ = σ} {η = η} l Free
                  (if b then decode_with env lists (noinit k dest) fuel k dest else noinit k dest)
          by_type true l = decode_with-Total (noinit k dest) fuel k dest l lt (λ l'. h k dest l' lt)
          by_type false l = h k dest l lt

  -- The fields of the message at `k`, where the submessages are decoded by `noinit`.
  field-IsDecodable :
      (noinit : ℕ → ℕ → M (DecState σ η) (Unit {0})) (fuel k i : ℕ) (f : Field)
      → k < suc fuel
      → get_elem? (env.table k) i ≡ some f
      → ((k dest l : ℕ) → k < fuel → Total l Free (noinit k dest))
      → IsDecodable
          (decoder env.realloc (dec_submessage env lists noinit fuel))
          (message_defaults env.table (field_default env.table lists fuel))
          f
  unfolding set_to_defaults
  field-IsDecodable noinit fuel k i f lt e h =
      let known : IsField k f = All-get (IsField k) (env.table k) i f (schema.each k) e in
      record {
        works = λ dest left.
            decoder-Total env.realloc (dec_submessage env lists noinit fuel) f dest left
              known.encodable known.regular
              (λ m.
                let (k', ptr, less) = known.message m in
                dec_submessage-Total noinit fuel k' left dest f ptr (omega (arith, less, lt)) h);
        resets = λ m p mem.
            let (k', ptr, less) = known.message m in
            rw ptr (
              set_to_defaults-Returns env.table schema defaults lists fuel k' p mem
                (omega (arith, less, lt)));
        known = known.encodable;
        sized = sized k i f e;
      }

  pub decode_noinit-Total :
      (fuel k dest left : ℕ) → k < fuel → Total left Free (decode_noinit env lists fuel k dest)
  unfolding decode_noinit
  decode_noinit-Total zero k dest left lt = absurd (omega arith)
  decode_noinit-Total (suc fuel) k dest left lt =
      decode_message-Total env callbacks
        (decoder env.realloc (dec_submessage env lists (decode_noinit env lists fuel) fuel))
        (message_defaults env.table (field_default env.table lists fuel))
        (release_single_field env lists (suc fuel)) (env.table k) (schema.size k) dest
        (schema.ends k)
        (λ i f e.
          field-IsDecodable (decode_noinit env lists fuel) fuel k i f lt e
            (λ k' dest' l less. decode_noinit-Total fuel k' dest' l less))
        (λ it l spot. release_single_field-Total env schema lists (suc fuel) k dest it l lt spot)
        (λ i f e.
          not_extension (ltype f.type)
            (All-get (IsField k) (env.table k) i f (schema.each k) e).regular)
        (λ i f e. (All-get (IsField k) (env.table k) i f (schema.each k) e).tag_fits)
        (env.local fuel) lists left k refl

  decode-Total : (fuel k dest left : ℕ) → k < fuel → Total left Free (decode env lists fuel k dest)
  unfolding decode
  decode-Total fuel k dest left lt =
      decode_with-Total (decode_noinit env lists fuel k dest) fuel k dest left lt
        (λ l. decode_noinit-Total fuel k dest l lt)

  -- Where the tables of descriptors are in order and messages do not contain themselves, no
  -- message has an extension field, default values are as long as their fields, only fields of
  -- submessage type have descriptors, the items of a pointer field whose type can be packed have a
  -- size, every callback of the user ends within its stream and takes a byte, if there is one,
  -- where it returns true, the fuel exceeds the place of the descriptors, and the memory of the
  -- stream holds at least the bytes that it promises, all of them bytes: pb_decode ends, with true
  -- or false, whatever the bytes, the memory, realloc and free are, has read no byte past the end
  -- of the stream, and leaves a stream that promises no more than it did.
  pub decode-Finishes :
      (fuel k dest : ℕ) (bs : List ℕ) (left : ℕ) (err : Option ErrMsg) (mem : Mem) (heap : η)
      → k < fuel
      → left ≤ length bs
      → All IsByte bs
      → Finishes bs left
          (λ v l. l ≤ left)
          (decode env lists fuel k dest
            (record { stream = at bs left err; mem = mem; heap = heap }))
  decode-Finishes fuel k dest bs left err mem heap lt fits bytes =
      (Total-weaken (decode env lists fuel k dest) (λ v l le q. le)
          (decode-Total fuel k dest left lt)).ends
        bs err mem heap (fits, bytes)

  -- Where the tables of descriptors are in order and messages do not contain themselves, no
  -- message has an extension field, default values are as long as their fields, only fields of
  -- submessage type have descriptors, the items of a pointer field whose type can be packed have a
  -- size, every callback of the user ends within its stream and takes a byte, if there is one,
  -- where it returns true, the fuel exceeds the place of the descriptors, and the memory of the
  -- stream holds at least the bytes that it promises, all of them bytes: pb_decode_delimited ends,
  -- with true or false, has read no byte past the end of the stream, and leaves a stream that
  -- promises no more than it did.
  pub decode_delimited-Finishes :
      (fuel k dest : ℕ) (bs : List ℕ) (left : ℕ) (err : Option ErrMsg) (mem : Mem) (heap : η)
      → k < fuel
      → left ≤ length bs
      → All IsByte bs
      → Finishes bs left
          (λ v l. l ≤ left)
          (decode_delimited env lists fuel k dest
            (record { stream = at bs left err; mem = mem; heap = heap }))
  unfolding decode_delimited
  decode_delimited-Finishes fuel k dest bs left err mem heap lt fits bytes =
      (Total-weaken (decode_delimited env lists fuel k dest) (λ v l le q. le)
          (in_substream-Total left (decode env lists fuel k dest)
            (λ l. decode-Total fuel k dest l lt))).ends
        bs err mem heap (fits, bytes)

  -- Where the tables of descriptors are in order and messages do not contain themselves, no
  -- message has an extension field, default values are as long as their fields, only fields of
  -- submessage type have descriptors, the items of a pointer field whose type can be packed have a
  -- size, every callback of the user ends within its stream and takes a byte, if there is one,
  -- where it returns true, the place of the descriptors is at most the fuel, the rounds exceed the
  -- bytes that the stream promises, and the memory of the stream holds at least those, all of them
  -- bytes: the loop of pb_decode_noinit, from variables where the iterator is at a field of the
  -- message, the fields seen have two words and fixed_count_field is NULL or a descriptor of the
  -- table, ends, with true or false, and where it returns true its variables are so again.
  pub message_loop-IsSound :
      (fuel rounds k dest : ℕ) (st : Progress) (bs : List ℕ) (left : ℕ) (err : Option ErrMsg)
      (mem : Mem) (heap : η)
      → k ≤ fuel
      → IsSound (env.table k) (schema.size k) dest st
      → left < rounds
      → left ≤ length bs
      → All IsByte bs
      → Finishes bs left
          (λ st' l. IsSound (env.table k) (schema.size k) dest st')
          (message_loop env
            (decoder env.realloc (dec_submessage env lists (decode_noinit env lists fuel) fuel))
            (message_defaults env.table (field_default env.table lists fuel))
            (release_single_field env lists (suc fuel))
            (env.local fuel)
            lists
            rounds
            st
            (record { stream = at bs left err; mem = mem; heap = heap }))
  message_loop-IsSound fuel rounds k dest st bs left err mem heap lt sound enough fits bytes =
      let known : (i : ℕ) (f : Field) → get_elem? (env.table k) i ≡ some f → IsField k f =
        λ i f e. All-get (IsField k) (env.table k) i f (schema.each k) e in
      (message_loop-Total env callbacks
          (decoder env.realloc (dec_submessage env lists (decode_noinit env lists fuel) fuel))
          (message_defaults env.table (field_default env.table lists fuel))
          (release_single_field env lists (suc fuel)) (env.table k) (schema.size k) dest
          (schema.ends k)
          (λ i f e.
            field-IsDecodable (decode_noinit env lists fuel) fuel k i f (omega arith) e
              (λ k' dest' l less. decode_noinit-Total fuel k' dest' l less))
          (λ it l spot.
            release_single_field-Total env schema lists (suc fuel) k dest it l (omega arith) spot)
          (λ i f e. not_extension (ltype f.type) (known i f e).regular)
          (λ i f e. (known i f e).tag_fits) (env.local fuel) lists rounds left st sound enough).ends
        bs err mem heap (fits, bytes)
