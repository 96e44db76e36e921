-- ===== src/Nanopb/Decode.antt =====
-- The message level of pb_decode.c: the decoders of the types.
pub mod State
pub mod Env
pub mod Allocate
pub mod Values
pub mod Default
pub mod Defaulted
pub mod Confined
pub mod Stores
pub mod Bounds
pub mod Images
pub mod RoundTrip
pub mod Release
pub mod Static
pub mod Pointer
pub mod Field
pub mod Extension
pub mod Required
pub mod Message
pub mod Calls
pub mod TotalIter
pub mod Total
pub mod TotalValues
pub mod TotalDecoders
pub mod TotalSub
pub mod TotalStatic
pub mod TotalPointer
pub mod TotalCallback
pub mod TotalField
pub mod TotalRelease
pub mod TotalRequired
pub mod TotalFinish
pub mod TotalMessage
pub mod TotalCalls
pub mod Unknown
pub mod Failed
pub mod Apart
pub mod Released
mod SeenBits
pub mod Seen
mod Runs
mod MessageRuns
mod FieldRuns
