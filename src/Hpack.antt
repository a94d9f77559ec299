-- ===== src/Hpack.antt =====
-- HPACK (source/v2/hpack.cpp, hpack_huffman.cpp, hpack_context.cpp and their headers): the
-- exceptions as values, and the parts by child module.
pub mod Result
pub mod Ints
pub mod HuffmanTable
pub mod Huffman
pub mod Strings
pub mod StaticTable
pub mod Context
