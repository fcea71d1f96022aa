-- ===== src/Memory/Entry.antt =====
-- src/model/memory.rs, and what the server has of pgvector and of full-text search. `V` is
-- `serde_json::Value`.
use animus_rs.Prelude.{Bool, ℕ, Option, List, Text}
use animus_rs.Prelude.Sort.{Order}
use animus_rs.Work.Item.{Time}

pub record MemoryEntry (V : Type 0) : Type 0 where
  pub id : ℕ
  pub content : Text
  pub memory_type : Text
  pub source : Option Text
  pub metadata : V
  pub created_at : Time
  pub updated_at : Time

-- `F` is `f32`.
pub record NewMemory (V F : Type 0) : Type 0 where
  pub content : Text
  pub memory_type : Text
  pub source : Option Text
  pub metadata : V
  pub embedding : List F

pub record MemoryFilters : Type 0 where
  pub memory_type : Option Text
  pub source : Option Text
  pub since : Option Time

-- The floating-point numbers of the program and of the server, vectors, and ranking.
pub record Ranking : Type 1 where
  pub Float : Type 0
  -- `f32::to_string`
  pub show_float : Float → Text
  pub Vector : Type 0
  -- the cast `::vector`, where it succeeds; a vector of any dimension
  pub vector : Text → Option Vector
  -- whether it has the dimension of the column
  pub fits : Vector → Bool
  -- the server's numbers, in ascending order, with their arithmetic and literals
  pub Score : Type 0
  pub order : Order Score
  pub literal : Text → Score
  pub add : Score → Score → Score
  pub mul : Score → Score → Score
  pub div : Score → Score → Score
  -- `<=>`, the cosine distance of vectors of one dimension
  pub distance : Vector → Vector → Score
  -- `ts_rank(to_tsvector('english', content), plainto_tsquery('english', text))`
  pub text_rank : Text → Text → Score
