-- ===== src/Storage.antt =====
-- Where data lives: internal/datapath, the choice of the disk that holds the pieces, and
-- internal/acmecache, the certificate cache in the database, and internal/harmonysqlite/migrations.go.
pub mod DataPath
pub mod CertCache
pub mod Migrations
mod Tests
