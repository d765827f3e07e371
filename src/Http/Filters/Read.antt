-- ===== src/Http/Filters/Read.antt =====
-- What lmd/request.go prints of the filters of a request, and how lmd/http.go reads it.
use lmd.Prelude.{List, [], ◌∷◌, ◌++◌, Bytes, ok, ◌>>=◌, ◌≡◌, refl, ap, ◌∙◌}
use lmd.Runtime.{Go}
use lmd.Runtime.Dynamic.{str}
use lmd.Objects.{ObjectsType}
use lmd.Objects.Lookup.{IsIndexed}
use lmd.Filter.{Filter, filters, filter_list}
use lmd.Filter.Parse.{table_of}
use lmd.Filter.Print.{print_filter, print_filters}
use lmd.Filter.Print.Value.{Conversions}
use lmd.Request.{Request}
use lmd.Http.{parse_lines, print_all, parse_http_filter_request_data}
use lmd.Http.Filters.All.{AreReadable, filters-Shows}
use lmd.Text.Lines.{unlines, split-unlines}

module _ (go : Go) where
  print_all-filters :
      (fs : List (Filter go)) → print_all go [] fs ≡ print_filters go [] (filters go fs)
  unfolding print_all print_filters filters
  print_all-filters [] = refl
  print_all-filters (f ∷ fs) =
      ap (λ p. do first ← print_filter go [] f; rest ← p; ok (first ++ rest)) (print_all-filters fs)

  filter_list-filters : (fs : List (Filter go)) → filter_list go (filters go fs) ≡ fs
  unfolding filters filter_list
  filter_list-filters [] = refl
  filter_list-filters (f ∷ fs) = ap (◌∷◌ f) (filter_list-filters fs)

  -- With the conversions of numbers that Conversions asks for, filters and groups of filters as
  -- the parsers make them, a value that is an integer being at most 2^53 in size, and each
  -- condition in one line without blanks at its ends, are printed, and the text adds just these
  -- filters, behind those that it has, to a request for the same table when it is read.
  pub parse_http_filter_request_data-print_all :
      (conv : Conversions go) (o : ObjectsType) (req : Request go)
      (indexed : IsIndexed (table_of o req.table)) (fs : List (Filter go)) (prefix : Bytes)
      → AreReadable go conv o req.table indexed (filters go fs)
      → (printed : Bytes) × (print_all go [] fs ≡ ok printed)
        × (parse_http_filter_request_data go o req (str printed) prefix
            ≡ ok (record req { filter = req.filter ++ fs }))
  unfolding parse_http_filter_request_data parse_lines lmd.Text.trim_space
  parse_http_filter_request_data-print_all conv o req indexed fs prefix readable =
      let (ls, shows, lack, moves) =
        filters-Shows go conv o req.table indexed (filters go fs) readable in
      (
        unlines ls,
        print_all-filters fs ∙ shows,
        ap (λ lines. parse_lines go o lines req) (split-unlines ls lack)
            ∙ moves req.filter req ([] ∷ []) refl refl
            ∙ ap (λ gs. ok (record req { filter = req.filter ++ gs })) (filter_list-filters fs),
      )
