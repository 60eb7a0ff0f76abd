-- ===== src/Core/Process.antt =====
-- The process list and its tree (crates/muxtop-core/src/process.rs). Text is a list of code
-- points; `F32` stands for the floats, which the tree does not compute with.
pub mod Sort
pub mod Tree
pub mod Search
pub mod Examples
use muxtop.Base.{ℕ, List, Option}

abbrev pub Text : Type 0
Text = List ℕ

pub record ProcessInfo (F32 : Type 0) : Type 0 where
  pub pid : ℕ
  pub parent_pid : Option ℕ
  pub name : Text
  pub command : Text
  pub user : Text
  pub cpu_percent : F32
  pub memory_bytes : ℕ
  pub memory_percent : F32
  pub status : Text
