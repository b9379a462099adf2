-- ===== src/Routes/Toutiao.antt =====
-- routes/toutiao/abogus.go: the token of requests to toutiao.com.
pub mod Base64
pub mod Rc4
pub mod Sm3
pub mod Signature
