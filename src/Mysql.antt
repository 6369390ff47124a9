-- ===== src/Mysql.antt =====
-- The path of rows into the relational store: the MySQL loader and publisher of
-- databuilder/databuilder (loader/file_system_mysql_csv_loader.py,
-- publisher/mysql_csv_publisher.py).
pub mod Files
pub mod Publish
pub mod Names
pub mod Filed
pub mod Loaded
pub mod Sorted
pub mod Ranked
pub mod Merged
pub mod Published
pub mod Dependencies
