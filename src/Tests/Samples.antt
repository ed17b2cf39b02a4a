-- ===== src/Tests/Samples.antt =====
-- The files, rows and memory that the tests use.
use group_a_cs.Base.{none, some, [], Bytes, codes, replicate}
use group_a_cs.Base.Int.{pos}
use group_a_cs.Tables.{ClientInfo, ProductInfo, BillingInfo, CustomerOrderInfo, ItemOrder}
use group_a_cs.Tables.RoundTrip.Clients.{no_client}
use group_a_cs.Tables.RoundTrip.Products.{no_product}
use group_a_cs.Tables.RoundTrip.Bills.{no_billing}
use group_a_cs.Tables.RoundTrip.Orders.{no_customer_order}
use group_a_cs.World.{Locals, Files}

abbrev pub no_item : ItemOrder
no_item = record { product_id = pos 0; quantity = pos 0; item_cost_per_unit = pos 0 }

-- Zeroed memory.
abbrev pub zeroed : Locals
zeroed = record {
  client_db = replicate 4 no_client;
  product_list = replicate 4 no_product;
  modified_product_list = replicate 4 no_product;
  billing_info = replicate 4 no_billing;
  customer_order_info = replicate 4 no_customer_order;
  modified_customer_order_info = replicate 4 no_customer_order;
  order_list = replicate 4 no_item;
  put_back = λ t. [];
  command = [];
  rand = 4200;
  rounds = 10;
}

abbrev pub hook : ProductInfo
hook = record {
  product_id = pos 2000;
  product_name = codes "Hook";
  seller_id = pos 1001;
  quantity = pos 200;
  price = pos 20;
}

abbrev pub apples : ProductInfo
apples = record {
  product_id = pos 2002;
  product_name = codes "apples";
  seller_id = pos 1000;
  quantity = pos 50;
  price = pos 1;
}

abbrev pub wayne : ClientInfo
wayne = record {
  uuid = pos 1003;
  first_name = codes "Bruce";
  last_name = codes "Wayne";
  phone_number = codes "(569)653-0303";
  street_address = codes "1 Cave way";
  city = codes "Gotham City";
  state = codes "NY";
  zip_code = codes "9095";
}

abbrev pub wayne_bill : BillingInfo
wayne_bill = record {
  order_id = pos 3000;
  customer_id = pos 1003;
  first_name = codes "Bruce";
  last_name = codes "Wayne";
  street_address = codes "1 Cave way";
  city = codes "Gotham City";
  state = codes "NY";
  zip_code = codes "9095";
  total_order_cost = pos 430;
}

abbrev pub wayne_order : CustomerOrderInfo
wayne_order = record {
  order_id = pos 3000;
  product_id = pos 2000;
  quantity_purchased = pos 20;
  first_name = codes "Bruce";
  last_name = codes "Wayne";
  street_address = codes "1 Cave way";
  city = codes "Gotham City";
  state = codes "NY";
  zip_code = codes "9095";
  total_price = pos 400;
}

-- Two rows, without and with a newline behind the last.
abbrev pub two_rows : Bytes
two_rows = codes "2000,Hook,1001,200,20,\n2002,apples,1000,50,1,"

abbrev pub two_lines : Bytes
two_lines = codes "2000,Hook,1001,200,20,\n2002,apples,1000,50,1,\n"

abbrev pub shop : Bytes → Files
shop products = record {
  customer_info = some (codes "1003,Bruce,Wayne,(569)653-0303,1 Cave way,Gotham City,NY,9095,");
  seller_info = none;
  product_info = some products;
  billing_info = some (codes "3000,1003,Bruce,Wayne,1 Cave way,Gotham City,NY,9095,430,\n");
  customer_order = some (codes "3000,2000,20,Bruce,Wayne,1 Cave way,Gotham City,NY,9095,400,\n");
}
