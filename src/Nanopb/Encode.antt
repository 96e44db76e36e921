-- ===== src/Nanopb/Encode.antt =====
-- The message level of pb_encode.c: the encoders of the types, of a field and of a message.
pub mod Env
pub mod Values
pub mod Default
pub mod Unset
pub mod Field
pub mod Message
pub mod Frames
pub mod Submessages
pub mod Schema
pub mod Wire
pub mod Numbers
pub mod SteadyFields
pub mod SteadyArrays
pub mod SteadyBasic
pub mod Answers
pub mod SteadyMessage
pub mod Exact
mod Runs
