-- ===== src/Dyld/Parser/Sections.antt =====
-- The type, import and function sections of internal/runtime/dyld/loader.go: the bytes that their
-- parsers take.
use particles.Base.{ℕ, zero, suc, ◌+◌, arith, ◌==◌}
use particles.Dyld.{read_uleb128}
use particles.Dyld.Names.{Name}
use particles.Dyld.Info.{SoInfo}
use particles.Dyld.Reader.{read_byte, read_string, read_val_types, uleb32, skip_limits}
use particles.Dyld.Parser.{
  parse_type, parse_types, parse_type_section, tag_after_attribute, parse_desc, parse_import,
  parse_imports, parse_import_section, parse_type_indices, parse_function_section,
}
use particles.Dyld.Parser.Moves.{
  moved, refused, IsSane, IsSane-if, >>=-IsSane, pure-IsSane, read_byte-IsSane, read_uleb128-IsSane,
  read_string-IsSane, read_val_types-IsSane, uleb32-IsSane, skip_limits-IsSane,
}

parse_type-IsSane : (i : ℕ) → IsSane (parse_type i)
unfolding parse_type
parse_type-IsSane i = >>=-IsSane read_byte _ read_byte-IsSane λ tag.
    IsSane-if (tag == 0x60) _ _
      (>>=-IsSane read_val_types _ read_val_types-IsSane
        λ params. >>=-IsSane read_val_types _ read_val_types-IsSane λ results. pure-IsSane _)
      λ r. refused cc

parse_types-IsSane : (n i : ℕ) (info : SoInfo) → IsSane (parse_types n i info)
unfolding parse_types
parse_types-IsSane zero i info r = moved (omega arith)
parse_types-IsSane (suc n) i info r =
    >>=-IsSane (parse_type i) _ (parse_type-IsSane i) (λ t. parse_types-IsSane n (i + 1) _) r

pub parse_type_section-IsSane : (info : SoInfo) → IsSane (parse_type_section info)
unfolding parse_type_section
parse_type_section-IsSane info =
    >>=-IsSane read_uleb128 _ read_uleb128-IsSane λ n. parse_types-IsSane n 0 info

tag_after_attribute-IsSane :
    (i attribute : ℕ) (name : Name) (info : SoInfo)
    → IsSane (tag_after_attribute i attribute name info)
unfolding tag_after_attribute
tag_after_attribute-IsSane i attribute name info =
    IsSane-if (attribute == 0) _ _
      (>>=-IsSane read_uleb128 _ read_uleb128-IsSane λ idx. pure-IsSane _) λ r. refused (λ e. cc)

parse_desc-IsSane :
    (i : ℕ) (mod_name name : Name) (kind : ℕ) (st : SoInfo × ℕ)
    → IsSane (parse_desc i mod_name name kind st)
unfolding parse_desc
parse_desc-IsSane i mod_name name kind (info, count) =
    IsSane-if (kind == 0) _ _ (>>=-IsSane read_uleb128 _ read_uleb128-IsSane λ idx. pure-IsSane _) (
      IsSane-if (kind == 1) _ _
        (>>=-IsSane read_byte _ read_byte-IsSane
          λ _. >>=-IsSane skip_limits _ skip_limits-IsSane λ _. pure-IsSane _)
        (IsSane-if (kind == 2) _ _ (>>=-IsSane skip_limits _ skip_limits-IsSane λ _. pure-IsSane _)
          (IsSane-if (kind == 4) _ _
            (>>=-IsSane read_byte _ read_byte-IsSane λ attribute.
              >>=-IsSane _ _ (tag_after_attribute-IsSane i attribute name info) λ _. pure-IsSane _)
            (IsSane-if (kind == 3) _ _
              (>>=-IsSane read_byte _ read_byte-IsSane
                λ _. >>=-IsSane read_byte _ read_byte-IsSane λ _. pure-IsSane _)
              λ r. refused (λ e. cc)))))

parse_import-IsSane : (i : ℕ) (st : SoInfo × ℕ) → IsSane (parse_import i st)
unfolding parse_import
parse_import-IsSane i st = >>=-IsSane read_string _ read_string-IsSane λ mod_name.
    >>=-IsSane read_string _ read_string-IsSane λ name.
      >>=-IsSane read_byte _ read_byte-IsSane λ kind. parse_desc-IsSane i mod_name name kind st

parse_imports-IsSane : (n i : ℕ) (st : SoInfo × ℕ) → IsSane (parse_imports n i st)
unfolding parse_imports
parse_imports-IsSane zero i (info, count) r = moved (omega arith)
parse_imports-IsSane (suc n) i st r =
    >>=-IsSane (parse_import i st) _ (parse_import-IsSane i st)
      (λ next. parse_imports-IsSane n (i + 1) next) r

pub parse_import_section-IsSane : (info : SoInfo) → IsSane (parse_import_section info)
unfolding parse_import_section
parse_import_section-IsSane info =
    >>=-IsSane read_uleb128 _ read_uleb128-IsSane λ n. parse_imports-IsSane n 0 (info, 0)

parse_type_indices-IsSane : (n : ℕ) → IsSane (parse_type_indices n)
unfolding parse_type_indices
parse_type_indices-IsSane zero r = moved (omega arith)
parse_type_indices-IsSane (suc n) r =
    >>=-IsSane uleb32 _ uleb32-IsSane
      (λ idx.
        >>=-IsSane (parse_type_indices n) _ (parse_type_indices-IsSane n) λ rest. pure-IsSane _)
      r

pub parse_function_section-IsSane : (info : SoInfo) → IsSane (parse_function_section info)
unfolding parse_function_section
parse_function_section-IsSane info =
    >>=-IsSane read_uleb128 _ read_uleb128-IsSane
      λ n. >>=-IsSane (parse_type_indices n) _ (parse_type_indices-IsSane n) λ rest. pure-IsSane _
