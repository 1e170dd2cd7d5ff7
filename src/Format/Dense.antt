-- ===== src/Format/Dense.antt =====
-- `DenseTensorEntry` and `PackageTotals`: the entries of the dense blob and the accounting of bytes.
-- The offset of an entry is an integer, since a manifest that is read may hold any; sizes are natural
-- numbers.
use Prim.Native.String.{String}
use pocket_titan.Prelude.{ℕ, ◌+◌, Bool, Option, List, ◌==◌, if◌then◌else◌}
use pocket_titan.Prelude.Int.{ℤ}
use pocket_titan.Format.Spans.{Section, SectionSpan, total_length}
use pocket_titan.Format.Record.{find_span}

pub record DenseTensorEntry : Type 0 where
  pub name : String
  pub component : String
  pub shape : List ℕ
  pub bits : ℕ
  pub group_size : ℕ
  pub symmetric : Bool
  pub codec_id : String
  pub num_params : ℕ
  pub packed_bytes : ℕ
  pub byte_offset : ℤ
  pub spans : List SectionSpan

-- `sum(...) or self.packed_bytes`
unfoldable pub entry_length : DenseTensorEntry → ℕ
entry_length e = if total_length e.spans == 0 then e.packed_bytes else total_length e.spans

unfoldable pub entry_span : DenseTensorEntry → Section → Option SectionSpan
unfolding find_span
entry_span e section = find_span e.spans section

pub record PackageTotals : Type 0 where
  pub source_params : ℕ
  pub packaged_params : ℕ
  pub dropped_params : ℕ
  pub dense_bytes : ℕ
  pub expert_bytes : ℕ
  pub ple_bytes : ℕ

unfoldable pub package_bytes : PackageTotals → ℕ
package_bytes t = t.dense_bytes + t.expert_bytes + t.ple_bytes
