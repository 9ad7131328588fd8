-- ===== src/Zip.antt =====
-- src/zip_stored.cpp: the ZIP container of 3MF files, written and read. A file is the list of its
-- bytes. stb's zlib compressor and inflater are parameters.
pub mod Bytes
pub mod Crc
pub mod Write
pub mod Read
pub mod Layout
pub mod Entries
pub mod RoundTrip
pub mod Suffix
pub mod Archive
mod Tests
