-- ===== src/Routes/Bilibili.antt =====
-- routes/bilibili: the signature of requests.
pub mod Wbi
