-- ===== src/Routes.antt =====
-- routes: the parts of the adapters of sites that compute more than the fields of an answer.
pub mod Bilibili
pub mod Epicgames
pub mod Huxiu
pub mod Qq
pub mod Toutiao
