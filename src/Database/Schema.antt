-- ===== src/Database/Schema.antt =====
-- The tables of README.md and inc/Database.h as lists of rows, in the order of insertion.
use tiny_im.Prelude.{ℕ, List, [], Option, Bytes}

pub record User : Type 0 where
  pub user_id : Bytes
  pub username : Option Bytes  -- NULL is none
  pub password_hash : Bytes
  pub salt : Bytes

pub record Friend : Type 0 where
  pub user_id : Bytes
  pub friend_id : Bytes
  pub status : ℕ  -- 0: pending, 1: accepted

pub record StoredMessage : Type 0 where
  pub message_id : ℕ
  pub from_user_id : Bytes
  pub to_user_id : Bytes
  pub message_type : Bytes
  pub content : Bytes
  pub timestamp : ℕ  -- datetime('now'), as seconds

pub record OfflineMessage : Type 0 where
  pub user_id : Bytes
  pub content : Bytes

pub record Tables : Type 0 where
  pub users : List User
  pub friends : List Friend
  pub messages : List StoredMessage
  pub offline_messages : List OfflineMessage
  pub last_message_id : ℕ  -- the sequence behind AUTOINCREMENT

abbrev pub no_rows : Tables
no_rows = record {
  users = [];
  friends = [];
  messages = [];
  offline_messages = [];
  last_message_id = 0;
}

-- The texts of the statements that Database.cpp prepares.
pub data Statement : Type 0 where
  insert_user update_username select_login select_username insert_friend update_friend delete_friend
        select_friend_names select_friend_ids insert_message select_recent insert_offline
        select_offline delete_offline :
      Statement
