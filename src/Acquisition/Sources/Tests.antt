-- ===== src/Acquisition/Sources/Tests.antt =====
-- Pages as the extractors read them.
use acquire_intel.Prelude.{
  ◌≡◌, refl, true, none, some, ◌++◌, codes, Text, builtins, pos, show, strip,
}
use acquire_intel.Resilience.Classifier.{lower}
use acquire_intel.Acquisition.Sources.Json.{
  null, bool, int, string, array, object, nil, cons, Fields, field, end, get, get_or, dicts, repr,
  str, truthy,
}
use acquire_intel.Acquisition.Sources.Raw.{stringify, mapped_of, raw_product, Counts, Response}
use acquire_intel.Acquisition.Sources.Rest as Rest
use acquire_intel.Acquisition.Sources.Rest.Laws as RestLaws
use acquire_intel.Acquisition.Sources.Graphql as Graphql
use acquire_intel.Acquisition.Sources.Graphql.Laws as GraphqlLaws
use acquire_intel.Acquisition.Sources.Html as Html

abbrev plain : Text → Text
plain s = codes "'" ++ s ++ codes "'"

abbrev fresh : Counts
fresh = record { entries_seen = 0; entries_mapped = 0 }

shown_list :
    str plain (array (cons (int (pos 3)) (cons null (cons (string (codes "a")) nil))))
    ≡ codes "[3, None, 'a']"
unfolding str repr show
shown_list = refl

-- A page with one product, one without a price and one entry that is no dict.
abbrev priced : Fields
priced = field (codes "id") (int (pos 7)) (
    field (codes "title") (string (codes "Mug")) (
      field (codes "variants")
        (array (cons (object (field (codes "price") (string (codes " 12.50 ")) end)) nil)) end))

abbrev page : Response
page = record {
  is_text = true;
  json = some (
      object (
        field (codes "products")
          (array (
            cons (object priced)
              (cons (object (field (codes "id") (int (pos 8)) end)) (cons null nil))))
          end));
  page = none;
}

abbrev rest : Rest.DemoRest
rest = record { base_url = codes "https://a"; page_size = 2; default_currency = codes "USD" }

one_of_two :
    (Rest.parse plain rest page (some fresh)).stats
    ≡ some (record { entries_seen = 2; entries_mapped = 1 })
unfolding Rest.parse Rest.product_list Rest.to_raw_product Rest.first_price Rest.first_src
    Rest.any_is_available mapped_of stringify raw_product get get_or dicts str repr show builtins
one_of_two = refl

rest_parse-Accounted_example :
    RestLaws.Accounted rest
      (Rest.page_of page.page)
      (Rest.product_list page)
      fresh
      (Rest.parse plain rest page (some fresh))
rest_parse-Accounted_example = RestLaws.rest_parse-Accounted plain rest page fresh

-- A connection of one product, with a page to follow.
abbrev connection : Fields
connection =
    field (codes "edges")
      (array (
        cons
          (object (
            field (codes "node")
              (object (
                field (codes "id") (string (codes "gid/1")) (
                  field (codes "title") (string (codes "Mug")) (
                    field (codes "priceRange")
                      (object (
                        field (codes "minVariantPrice")
                          (object (
                            field (codes "amount") (string (codes "9.5"))
                              (field (codes "currencyCode") (string (codes "EUR")) end)))
                          end))
                      end))))
              end))
          nil))
      (field (codes "pageInfo")
        (object (
          field (codes "hasNextPage") (bool true)
            (field (codes "endCursor") (string (codes "c1")) end)))
        end)

abbrev answer : Fields → Response
answer payload = record { is_text = true; json = some (object payload); page = none }

abbrev data_fields : Fields → Fields
data_fields rest =
    field (codes "data") (object (field (codes "products") (object connection) end)) rest

abbrev graphql : Graphql.DemoGraphql
graphql = record { base_url = codes "https://g"; page_size = 50; default_currency = codes "USD" }

follows_cursor :
    (Graphql.parse plain graphql (answer (data_fields end)) (some fresh)).follow
    ≡ some (Graphql.graphql_request graphql (some (codes "c1")))
unfolding Graphql.parse Graphql.extract_connection Graphql.follow get get_or str builtins
follows_cursor = refl

graphql_parse-Accounted_example :
    GraphqlLaws.Accounted plain graphql fresh
      (Graphql.extract_connection (answer (data_fields end)))
      (Graphql.parse plain graphql (answer (data_fields end)) (some fresh))
graphql_parse-Accounted_example =
    GraphqlLaws.graphql_parse-Accounted plain graphql (answer (data_fields end)) fresh

abbrev failed : Fields
failed = data_fields (field (codes "errors") (array (cons (string (codes "Throttled")) nil)) end)

errors_truthy : truthy (get failed (codes "errors")) ≡ true
unfolding get get_or builtins
errors_truthy = refl

abbrev card : Html.Card
card = record {
  product_id = some (codes " 4 ");
  title = some (codes "Mug");
  price = some (codes "3");
  href = some (codes "/p/4");
  currency = none;
  in_stock = some (codes "TRUE ");
  brand = none;
  image_src = none;
}

abbrev html : Html.DemoHtml
html = record { base_url = codes "https://h"; default_currency = codes "EUR" }

card_in_stock : Html.parse_stock card.in_stock ≡ some true
unfolding Html.parse_stock strip lower builtins
card_in_stock = refl
