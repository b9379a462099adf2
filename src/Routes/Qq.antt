-- ===== src/Routes/Qq.antt =====
-- routes/qq/fact.go: articles of a site that checks facts.
pub mod Token
pub mod Articles
