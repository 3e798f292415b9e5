-- ===== src/Image.antt =====
-- middleware/image: the conversion of frames, the ring of RGB frames, and the output of a frame.
pub mod Lut
pub mod Yuv
pub mod Convert
pub mod Buffer
pub mod Send
pub mod FileWrite
pub mod SaveFile
pub mod Tests
