-- ===== src/Symbols/Types.antt =====
-- crates/cobol-sema/src/symbol_table.rs: the data of the symbol table, and the COBOL types.
use rust_cobol.Prelude.{ℕ, Bool, true, false, Option, List}
use rust_cobol.Prelude.Text.{Text}
use rust_cobol.Common.Span.{Span}

pub data ScopeKind : Type 0 where
  program section paragraph : ScopeKind

-- COBOL data types, from PICTURE and USAGE.
pub data CobolType : Type 0 where
  alphabetic alphanumeric : ℕ → CobolType
  numeric : (size decimal_places : ℕ) → (is_signed : Bool) → CobolType
  numeric_edited alphanumeric_edited group : ℕ → CobolType
  index pointer boolean : CobolType
  national : ℕ → CobolType
  float_short float_long float_extended : CobolType

pub data SymbolKind : Type 0 where
  data_item : (level : ℕ) → (is_group : Bool) → SymbolKind
  file_description : Text → SymbolKind
  paragraph section program : SymbolKind
  condition_name : List Text → SymbolKind

pub record Symbol : Type 0 where
  pub name : Text
  pub kind : SymbolKind
  pub data_type : Option CobolType
  pub span : Span
  pub parent_name : Option Text
  pub parent_span : Option Span

-- The map from upper-case names; a key stands once.
pub record Scope : Type 0 where
  pub name : Text
  pub kind : ScopeKind
  pub symbols : List (Text × List Symbol)
  pub parent : Option ℕ

pub record SymbolTable : Type 0 where
  pub scopes : List Scope
  pub current_scope : ℕ

unfoldable pub is_numeric : CobolType → Bool
is_numeric (CobolType.numeric size decimal_places is_signed) = true
is_numeric CobolType.float_short = true
is_numeric CobolType.float_long = true
is_numeric CobolType.float_extended = true
is_numeric CobolType.index = true
is_numeric _ = false

unfoldable pub is_alphanumeric : CobolType → Bool
is_alphanumeric (CobolType.alphanumeric size) = true
is_alphanumeric (CobolType.alphanumeric_edited size) = true
is_alphanumeric _ = false

unfoldable pub is_alphabetic : CobolType → Bool
is_alphabetic (CobolType.alphabetic size) = true
is_alphabetic _ = false

unfoldable pub is_group : CobolType → Bool
is_group (CobolType.group size) = true
is_group _ = false
