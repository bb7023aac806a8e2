-- ===== src/Tokenizer.antt =====
-- tokenizer/: the package that turns text into tokens and tokens into text.
pub mod Bpe
pub mod Utf8
pub mod Segmenter
pub mod Store
pub mod Core
pub mod Literals
pub mod Loader
