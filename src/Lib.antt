-- ===== src/Lib.antt =====
-- Verification of the C code that the PicksOnMap app is built with.
--
-- The app (1. PicksOnMap) shows places on a map and keeps them in a Firebase database. Its own
-- code is Swift user interface. The C code with logic of its own comes with its pods: nanopb
-- (1. PicksOnMap/Pods/nanopb), which the Firebase libraries use to write and read protocol
-- buffers. Its layers are the stream (pb_istream_t, pb_ostream_t), the readers and writers of
-- the wire format on a stream, the iterator over the descriptors of a message, and the message
-- decoder and encoder.
--
-- The database pod has its own base64 functions
-- (1. PicksOnMap/Pods/FirebaseDatabase/Firebase/Database/third_party/SocketRocket/fbase64.c), for
-- the handshake of its websocket.
--
-- Files:
--   Common       shared names, Boolean tests, lists, bit operations, and Outcome: what a C function
--                does that works on a state and returns a bool. `fail` is `return false`, `fault`
--                an access out of range, `stuck` a loop of the model that ran out of fuel.
--   Base64       fbase64.c: f_b64_ntop and f_b64_pton. Base64/Encoding, Base64/Digits, Base64/Steps
--                and Base64/RoundTrip reason about them; Base64/Client is the caller in
--                NSData+SRB64Additions.m; Base64/Runs has runs. A C string is the list of its
--                characters; isspace is a parameter. The loops are structural on the string.
--   Nanopb/Types     pb.h: type constants, wire types, PB_SET_ERROR.
--   Nanopb/Input     pb_decode.h, pb_decode.c: pb_istream_t, pb_read, pb_readbyte. Input/Varint has
--                    pb_decode_varint32_eof, pb_decode_varint32, pb_decode_varint, pb_skip_varint,
--                    pb_skip_string; Input/Wire has pb_decode_tag, pb_skip_field, read_raw_value,
--                    pb_make_string_substream, pb_close_string_substream, pb_decode_svarint,
--                    pb_decode_fixed32, pb_decode_fixed64. Input/Buffer, Input/Fixed,
--                    Input/Safety, Input/SafeReaders, Input/SafeWords, Input/Bounds,
--                    Input/Takes, Input/Readers, Input/RawValue and Input/Ahead
--                    reason about them.
--   Nanopb/Output    pb_encode.h, pb_encode.c: pb_ostream_t, pb_write. Output/Primitives has
--                    pb_encode_varint, pb_encode_svarint, pb_encode_fixed32, pb_encode_fixed64,
--                    pb_encode_tag, pb_encode_tag_for_field, pb_encode_string. Output/Buffer
--                    reasons about pb_write, Output/Strings about pb_encode_string.
--                    Output/Text is what a writer puts on a stream, apart from the stream, and
--                    Output/Steady and Output/SteadyWriters reason about writers that put the same
--                    text on every stream.
--   Nanopb/Iter      pb_common.c: pb_field_iter_t, pb_field_iter_begin, pb_field_iter_next and
--                    pb_field_iter_find. Iter/Table, Iter/Find and Iter/Spot reason about
--                    them; Iter/Placed has the addresses of the fields, by recursion on the
--                    table of descriptors, and compares them with the iterator.
--   Nanopb/Memory    the memory that a message and its descriptors lie in, and loads from it.
--   Nanopb/Encode    pb_encode.c, the message level. Encode/Env is what the encoder reads and the
--                    user's callbacks; Encode/Values has the pb_enc_* functions, Encode/Default
--                    pb_check_proto3_default_value, Encode/Field encode_array,
--                    encode_basic_field, encode_callback_field and encode_field, Encode/Message
--                    the extensions, pb_encode, pb_encode_submessage and their callers.
--                    Encode/Schema says which tables of descriptors are in order; Encode/Wire is
--                    the text of a message on the wire, without streams, sizes, passes, the
--                    iterator or the helpers of the encoder, and Encode/Unset says which fields
--                    count as not set.
--                    Encode/Numbers, Encode/Frames, Encode/Submessages, Encode/SteadyFields,
--                    Encode/SteadyArrays, Encode/SteadyBasic, Encode/SteadyMessage and
--                    Encode/Answers compare the two, layer by layer, and Encode/Exact has the
--                    results. Encode/Runs is a run.
--   Nanopb/Decode    pb_decode.c, the message level. Decode/State is what the decoder works on, the
--                    stream, the memory and the heap, and Decode/Env what it is given: descriptors,
--                    the allocator and the user's callbacks. Decode/Allocate has allocate_field,
--                    Decode/Values the pb_dec_* functions and their table PB_DECODERS,
--                    Decode/Default pb_field_set_to_default, pb_message_set_to_defaults and
--                    iter_from_extension, Decode/Release pb_release and
--                    pb_release_single_field, Decode/Static decode_static_field, Decode/Pointer
--                    initialize_pointer_field and decode_pointer_field, Decode/Field
--                    decode_callback_field, pb_release_union_field and decode_field,
--                    Decode/Extension default_extension_decoder, decode_extension and
--                    find_extension_field, Decode/Required and Decode/Message
--                    pb_decode_noinit, Decode/Calls pb_dec_submessage, pb_decode and its variants.
--                    Decode/Defaulted reasons about default values, Decode/Confined,
--                    Decode/Stores and Decode/Bounds about where the pb_dec_* functions store,
--                    Decode/Images and Decode/RoundTrip about reading back, Decode/Total and the
--                    modules whose names begin so about every input, layer by layer,
--                    Decode/Unknown about unknown fields, Decode/Failed about a heap that is
--                    full, Decode/Apart and Decode/Released about pb_release_single_field, Decode/SeenBits and
--                    Decode/Seen about the check of the required fields. Decode/Runs,
--                    Decode/MessageRuns and Decode/FieldRuns have runs.
--   Nanopb/Varint    the varint format apart from the code, and what the code does with it.
--   Nanopb/RoundTrip what is written is read back.
--   Nanopb/Runs      runs on concrete bytes.
--
-- A stream function is a state transformer: it is given the stream and returns the stream that the
-- caller has afterwards, on `return false` too. Memory behind a stream is the list of its bytes from
-- the read position on; the callback of another stream is a parameter with its own state. Numbers
-- of w bits are natural numbers with `% 2 ^ w` where the code wraps; an int64_t is given by its
-- bits, and so is the int of fbase64.c. The configuration is that of the pods: PB_FIELD_32BIT, PB_ENABLE_MALLOC, error messages and
-- callback streams on, size_t of 64 bits, uint_fast8_t of 8 bits.
--
-- Fuel: pb_decode_varint runs at most eleven rounds, since the round at bit 70 fails;
-- read_raw_value one round more than its buffer has bytes; the loops of pb_decode_varint32_eof and
-- pb_skip_varint one round more than the stream has bytes left; the skipping loop of pb_read as
-- many as the count; pb_field_iter_find as many as the table has descriptors. The theorems named
-- Ends and Finishes, and find-Search, show that the fuel is enough.
--
-- The message encoder takes one of its fuel for each level of submessages; the tables stand so that a
-- submessage has its descriptors at a lower place, so fuel beyond the place of the message is enough.
-- The loop over the fields has as much as the table has descriptors; `lists` bounds the lists of
-- extensions. A pb_callback_t is a function pointer and, eight bytes on, its argument.
--
-- pb_message_set_to_defaults, pb_decode_noinit and pb_release take their fuel in the same way. The
-- loop of pb_decode_noinit and the loops over a packed array or a callback have one round more than
-- the stream or the substream has bytes; find_extension_field and the count of required fields as
-- many as the table has descriptors. fixed_count_size is a local variable that a field iterator
-- points to: it is in memory, at an address that Env gives for each level.
--
-- Not modelled: the Objective-C and C++ libraries of the other pods, which the app only calls;
-- the Swift user interface. The theorems about whole messages leave out messages with extension
-- fields. realloc and free of the C library and the callbacks of the user are parameters. What a
-- callback of a stream leaves in a buffer when it refuses a read is not followed: the memory is
-- taken as it was.
pub mod Base64
pub mod Common
pub mod Nanopb
