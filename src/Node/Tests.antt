-- ===== src/Node/Tests.antt =====
-- The database requests for a concrete node.
use gateway_v.Base.{◌≡◌, refl}
use gateway_v.Text.{dec_digits, print_int}
use gateway_v.Node.{
  patch, delete, codes, zero_node, print_uint, node_url, db_update_data, db_add_node,
  db_remove_node,
}
use gateway_v.Sample.{pi}

node_7_requests :
    (db_add_node pi (record (zero_node pi) { id = 7; illuminance = 40 })
      ≡ patch (codes "https://lora-mesher-default-rtdb.firebaseio.com/7.json?auth=k") (
          codes
            "{\"Light intensity\": 0, \"Illuminance\": 40, \"Source Voltage\": 0, \"Source Current\": 0}"))
    × (db_remove_node pi (record (zero_node pi) { id = 7 })
        ≡ delete (codes "https://lora-mesher-default-rtdb.firebaseio.com/7.json?auth=k"))
unfolding db_add_node db_update_data db_remove_node node_url print_uint dec_digits print_int
node_7_requests = (refl, refl)
