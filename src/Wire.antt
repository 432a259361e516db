-- ===== src/Wire.antt =====
-- What the codecs of baichuan/bc, baichuan/bcudp and baichuan/bcmedia take from the crates `nom`
-- (streaming parsers) and `cookie_factory` (writers). Both crates are outside the repository, so
-- they are records of operations with the documented behaviour as laws. A byte is a number below
-- 256, and a buffer a list of bytes.
pub mod Parsed
pub mod Nom
pub mod CookieFactory
pub mod Words
pub mod Within
pub mod Concrete
