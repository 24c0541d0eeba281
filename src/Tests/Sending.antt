-- ===== src/Tests/Sending.antt =====
-- Tests of network/ and steam/.
use steam_sales_tray.Shared.{◌≡◌, refl, true, none, List, [], ◌∷◌, arith}
use steam_sales_tray.Shared.Bytes.{codes, bytes_eq}
use steam_sales_tray.Network.UrlEncoder.{
  encode_component, decode_component, decode_component-encode_component,
}
use steam_sales_tray.Steam.Models.{DetailedSalesPage}
use steam_sales_tray.Steam.Json.{
  find_name, app_names, parse_detailed_sales_page, read_response, get_number_as_string,
}
use steam_sales_tray.Steam.Json.Names.{last_entry, find_name-app_names}
use steam_sales_tray.Steam.Client.{
  is_ok, get_all_detailed_sales_for_date, max_pages_per_date, fetch_pages, get_detailed_sales,
  classify, refine, is_last,
}
use steam_sales_tray.Steam.Client.Pages.{IsTrace, records_of, all_pages}
use steam_sales_tray.Tests.Data.{json, server, tuesday}

decode_component-encode_component_example :
    decode_component (encode_component (47 ∷ 65 ∷ 255 ∷ [])) ≡ 47 ∷ 65 ∷ 255 ∷ []
decode_component-encode_component_example =
    decode_component-encode_component (47 ∷ 65 ∷ 255 ∷ [])
      (omega arith, (omega arith, (omega arith, tt)))

find_name-app_names_example :
    find_name 480 (app_names json (0 ∷ 6 ∷ 0 ∷ []) []) ≡ last_entry json none 480 (0 ∷ 6 ∷ 0 ∷ [])
find_name-app_names_example = find_name-app_names json 480 (0 ∷ 6 ∷ 0 ∷ [])

server-is_ok : is_ok (get_all_detailed_sales_for_date json server (codes "KEY") tuesday 0).0 ≡ true
unfolding get_all_detailed_sales_for_date fetch_pages get_detailed_sales is_ok codes classify refine
    parse_detailed_sales_page read_response bytes_eq is_last get_number_as_string
server-is_ok = refl

all_pages_example :
    let result = get_all_detailed_sales_for_date json server (codes "KEY") tuesday 0 in
    (pages : List DetailedSalesPage) × IsTrace json server
      (codes "KEY")
      tuesday
      max_pages_per_date
      (codes "0")
      0
      pages
      result.2
    × (result.1 ≡ records_of pages)
all_pages_example = all_pages json server (codes "KEY") tuesday 0 server-is_ok
