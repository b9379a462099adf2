-- ===== src/Routes/Huxiu.antt =====
-- routes/huxiu/nuxt.go: the data that the pages of huxiu.com carry.
pub mod Detail
pub mod Nuxt
