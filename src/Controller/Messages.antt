-- ===== src/Controller/Messages.antt =====
-- internal/controller/workloadclass_controller.go: truncateMessage and the names in an overlap message, with
-- QuotedList of internal/utils/format.go.
use workload_class.Prelude.{
  ℕ, zero, suc, ◌-◌, Bool, true, not, ◌&&◌, List, [], ◌∷◌, ◌++◌, length, take, leb, ltb, map, Str,
  lit, if◌then◌else◌,
}
use workload_class.LeaseTracker.{str_lt}

abbrev pub ellipsis : Str
ellipsis = lit "..."

-- utf8.RuneStart: the byte is not a continuation byte 10xxxxxx.
unfoldable pub rune_start : ℕ → Bool
rune_start b = not (leb 128 b && ltb b 192)

-- rune_start of the byte at an index, which is in range where it is read.
unfoldable pub starts_rune_at : Str → ℕ → Bool
starts_rune_at [] n = true
starts_rune_at (b ∷ s) zero = rune_start b
starts_rune_at (b ∷ s) (suc n) = starts_rune_at s n

-- The loop that moves the cut to the left.
unfoldable pub cut_at : Str → ℕ → ℕ
cut_at msg zero = zero
cut_at msg (suc n) = let rest = cut_at msg n in if starts_rune_at msg (suc n) then suc n else rest

-- truncateMessage
unfoldable pub truncate_message : Str → ℕ → Str
truncate_message msg max_len =
    if leb (length msg) max_len
    then msg
    else if leb max_len (length ellipsis)
    then take max_len ellipsis
    else take (cut_at msg (max_len - length ellipsis)) msg ++ ellipsis

abbrev pub max_condition_message_len : ℕ
max_condition_message_len = 32768

abbrev pub max_reported_overlaps : ℕ
max_reported_overlaps = 5

-- strings.Join
unfoldable pub join : List Str → Str → Str
join [] sep = []
join (s ∷ []) sep = s
join (s ∷ t ∷ rest) sep = s ++ (sep ++ join (t ∷ rest) sep)

-- QuotedList
unfoldable pub quoted_list : List Str → Str
quoted_list values = join (map (λ v. lit "'" ++ (v ++ lit "'")) values) (lit ", ")

-- slices.Sort: any correct sort of texts returns this list.
unfoldable pub insert_str : Str → List Str → List Str
insert_str s [] = s ∷ []
insert_str s (t ∷ ts) = if str_lt t s then t ∷ insert_str s ts else s ∷ t ∷ ts

unfoldable pub sort_strs : List Str → List Str
sort_strs [] = []
sort_strs (s ∷ ss) = insert_str s (sort_strs ss)

-- What selectorOverlapMessage lists: the first names, and how many more there are.
pub record Listed : Type 0 where
  pub names : Str
  pub extra : ℕ

unfoldable pub list_overlapping : List Str → Listed
list_overlapping names = record {
  names = quoted_list (take max_reported_overlaps (sort_strs names));
  extra = length names - max_reported_overlaps;
}
