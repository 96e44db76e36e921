-- ===== src/Nanopb/Output/Text.antt =====
-- What a writer puts on a stream: whether it succeeds, and the bytes up to where it fails.
use test_gbksoft.Common.{ℕ, Bool, true, false, List, [], ◌++◌, length}
use test_gbksoft.Nanopb.Varint.{varint_of}

abbrev pub Text : Type 0
Text = Bool × List ℕ

abbrev pub refused : Text
refused = (false, [])

abbrev pub nothing : Text
nothing = (true, [])

-- After what fails, nothing is written.
abbrev pub and_then : Text → Text → Text
and_then (true, bs) (g, cs) = (g, bs ++ cs)
and_then (false, bs) t = (false, bs)

abbrev pub varint_text : ℕ → Text
varint_text v = (true, varint_of v)

abbrev pub string_text : List ℕ → Text
string_text bs = (true, varint_of (length bs) ++ bs)

-- The length and the bytes.
abbrev pub framed_text : Text → Text
framed_text (true, bs) = (true, varint_of (length bs) ++ bs)
framed_text (false, bs) = (false, bs)
