-- ===== src/Database.antt =====
-- inc/Database.h and src/Database.cpp: the tables, the connection pool and the queries.
pub mod Schema
pub mod Engine
pub mod Pool
pub mod Credentials
pub mod Users
pub mod Friends
pub mod Messages
pub mod Calls
pub mod Contract
