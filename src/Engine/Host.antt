-- ===== src/Engine/Host.antt =====
-- The operating system that src/engine/focus.rs calls (`tokio::fs`, `tokio::process`, `std::env`),
-- as an interface: its state, what each call answers, and what it leaves.
use animus_rs.Prelude.{ℕ, ℤ, Bool, Option, List, Text, Result}

pub record ExitStatus : Type 0 where
  pub success : Bool
  pub code : Option ℤ

pub record Host : Type 1 where
  pub Machine : Type 0
  pub create_dir_all : Text → Machine → Result Text (Unit {0}) × Machine
  pub write : Text → Text → Machine → Result Text (Unit {0}) × Machine
  pub read_to_string : Text → Machine → Result Text Text
  pub exists : Text → Machine → Bool
  pub remove_dir_all : Text → Machine → Result Text (Unit {0}) × Machine
  pub current_dir : Machine → Result Text Text
  pub is_relative : Text → Bool
  pub join : Text → Text → Text
  -- the command, its directory and the variables set for it
  pub status : Text → Text → List (Text × Text) → Machine → Result Text ExitStatus × Machine
  -- the milliseconds since `run` started
  pub elapsed : Machine → ℕ
