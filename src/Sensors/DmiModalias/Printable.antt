-- ===== src/Sensors/DmiModalias/Printable.antt =====
-- The bytes of the modalias that interfaces/sensors/mainline/utils/hwdb/DmiModalias.cpp builds.
use android_hardware_mainlin.Prelude.{
  refl, inl, inr, Option, none, some, List, [], ◌∷◌, ltb, leb, Option-cases, Bytes, nat_key,
  bytes_key,
}
use android_hardware_mainlin.Sensors.DmiModalias.{
  SmbiosEntry, bios_info, system_info, baseboard_info, system_enclosure, other_entry, DmiFields,
  no_fields, read_entry, read_entries, assemble, build_from_entries, build_dmi_modalias,
  read_raw_tables,
}
use android_hardware_mainlin.Sensors.DmiModalias.Text.{
  IsPrintable, ◌+++◌, append_filtered-IsPrintable, if-IsPrintable, append_release-IsPrintable,
  literal, chassis_text-IsPrintable,
}

record ArePrintable (f : DmiFields) : Type 0 where
  bios_vendor : IsPrintable f.bios_vendor
  bios_version : IsPrintable f.bios_version
  bios_date : IsPrintable f.bios_date
  bios_release : IsPrintable f.bios_release
  ec_release : IsPrintable f.ec_release
  sys_vendor : IsPrintable f.sys_vendor
  product_name : IsPrintable f.product_name
  product_version : IsPrintable f.product_version
  product_sku : IsPrintable f.product_sku
  product_family : IsPrintable f.product_family
  board_vendor : IsPrintable f.board_vendor
  board_name : IsPrintable f.board_name
  board_version : IsPrintable f.board_version
  chassis_vendor : IsPrintable f.chassis_vendor
  chassis_version : IsPrintable f.chassis_version

read_entry-ArePrintable :
    (entry : SmbiosEntry) (f : DmiFields) → ArePrintable f → ArePrintable (read_entry entry f)
unfolding read_entry
read_entry-ArePrintable (bios_info size vendor version date major minor ec_major ec_minor) f p =
    record {
      bios_vendor =
          append_filtered-IsPrintable f.bios_vendor "bvn" vendor p.bios_vendor
            (record { printable = refl });
      bios_version =
          append_filtered-IsPrintable f.bios_version "bvr" version p.bios_version
            (record { printable = refl });
      bios_date =
          append_filtered-IsPrintable f.bios_date "bd" date p.bios_date
            (record { printable = refl });
      bios_release =
          if-IsPrintable (leb 21 size) _ _
            (append_release-IsPrintable f.bios_release "br" major minor p.bios_release
              (record { printable = refl }))
            p.bios_release;
      ec_release =
          if-IsPrintable (leb 23 size) _ _
            (append_release-IsPrintable f.ec_release "efr" ec_major ec_minor p.ec_release
              (record { printable = refl }))
            p.ec_release;
      sys_vendor = p.sys_vendor;
      product_name = p.product_name;
      product_version = p.product_version;
      product_sku = p.product_sku;
      product_family = p.product_family;
      board_vendor = p.board_vendor;
      board_name = p.board_name;
      board_version = p.board_version;
      chassis_vendor = p.chassis_vendor;
      chassis_version = p.chassis_version;
    }
read_entry-ArePrintable (system_info size manufacturer product version sku family) f p = record {
  bios_vendor = p.bios_vendor;
  bios_version = p.bios_version;
  bios_date = p.bios_date;
  bios_release = p.bios_release;
  ec_release = p.ec_release;
  sys_vendor =
      append_filtered-IsPrintable f.sys_vendor "svn" manufacturer p.sys_vendor
        (record { printable = refl });
  product_name =
      append_filtered-IsPrintable f.product_name "pn" product p.product_name
        (record { printable = refl });
  product_version =
      append_filtered-IsPrintable f.product_version "pvr" version p.product_version
        (record { printable = refl });
  product_sku =
      if-IsPrintable (ltb 25 size) _ _
        (append_filtered-IsPrintable f.product_sku "sku" sku p.product_sku
          (record { printable = refl }))
        p.product_sku;
  product_family =
      if-IsPrintable (ltb 26 size) _ _
        (append_filtered-IsPrintable f.product_family "pfa" family p.product_family
          (record { printable = refl }))
        p.product_family;
  board_vendor = p.board_vendor;
  board_name = p.board_name;
  board_version = p.board_version;
  chassis_vendor = p.chassis_vendor;
  chassis_version = p.chassis_version;
}
read_entry-ArePrintable (baseboard_info manufacturer product version) f p = record {
  bios_vendor = p.bios_vendor;
  bios_version = p.bios_version;
  bios_date = p.bios_date;
  bios_release = p.bios_release;
  ec_release = p.ec_release;
  sys_vendor = p.sys_vendor;
  product_name = p.product_name;
  product_version = p.product_version;
  product_sku = p.product_sku;
  product_family = p.product_family;
  board_vendor =
      append_filtered-IsPrintable f.board_vendor "rvn" manufacturer p.board_vendor
        (record { printable = refl });
  board_name =
      append_filtered-IsPrintable f.board_name "rn" product p.board_name
        (record { printable = refl });
  board_version =
      append_filtered-IsPrintable f.board_version "rvr" version p.board_version
        (record { printable = refl });
  chassis_vendor = p.chassis_vendor;
  chassis_version = p.chassis_version;
}
read_entry-ArePrintable (system_enclosure manufacturer type version) f p = record {
  bios_vendor = p.bios_vendor;
  bios_version = p.bios_version;
  bios_date = p.bios_date;
  bios_release = p.bios_release;
  ec_release = p.ec_release;
  sys_vendor = p.sys_vendor;
  product_name = p.product_name;
  product_version = p.product_version;
  product_sku = p.product_sku;
  product_family = p.product_family;
  board_vendor = p.board_vendor;
  board_name = p.board_name;
  board_version = p.board_version;
  chassis_vendor =
      append_filtered-IsPrintable f.chassis_vendor "cvn" manufacturer p.chassis_vendor
        (record { printable = refl });
  chassis_version =
      append_filtered-IsPrintable f.chassis_version "cvr" version p.chassis_version
        (record { printable = refl });
}
read_entry-ArePrintable other_entry f p = p

read_entries-ArePrintable :
    (entries : List SmbiosEntry) (f : DmiFields)
    → ArePrintable f
    → ArePrintable (read_entries entries f)
unfolding read_entries
read_entries-ArePrintable [] f p = p
read_entries-ArePrintable (entry ∷ entries) f p =
    read_entries-ArePrintable entries _ (read_entry-ArePrintable entry f p)

no_fields-ArePrintable : ArePrintable no_fields
no_fields-ArePrintable = record {
  bios_vendor = record { printable = refl };
  bios_version = record { printable = refl };
  bios_date = record { printable = refl };
  bios_release = record { printable = refl };
  ec_release = record { printable = refl };
  sys_vendor = record { printable = refl };
  product_name = record { printable = refl };
  product_version = record { printable = refl };
  product_sku = record { printable = refl };
  product_family = record { printable = refl };
  board_vendor = record { printable = refl };
  board_name = record { printable = refl };
  board_version = record { printable = refl };
  chassis_vendor = record { printable = refl };
  chassis_version = record { printable = refl };
}

assemble-IsPrintable : (f : DmiFields) → ArePrintable f → IsPrintable (assemble f)
unfolding assemble
assemble-IsPrintable f p =
    literal "dmi:" refl
    +++ p.bios_vendor
    +++ p.bios_version
    +++ p.bios_date
    +++ p.bios_release
    +++ p.ec_release
    +++ p.sys_vendor
    +++ p.product_name
    +++ p.product_version
    +++ p.board_vendor
    +++ p.board_name
    +++ p.board_version
    +++ p.chassis_vendor
    +++ chassis_text-IsPrintable f.chassis_type
    +++ p.chassis_version
    +++ p.product_sku
    +++ p.product_family

from_entries-IsPrintable :
    (entries : Option (List SmbiosEntry)) → IsPrintable (build_from_entries entries)
unfolding build_from_entries
from_entries-IsPrintable none = record { printable = refl }
from_entries-IsPrintable (some entries) =
    assemble-IsPrintable _ (read_entries-ArePrintable entries no_fields no_fields-ArePrintable)

-- Whatever strings the firmware reports, the modalias is printable ASCII without spaces.
pub build_dmi_modalias-IsPrintable :
    (smbios : Bytes → Option (List SmbiosEntry)) (entry_point table : Option Bytes)
    → IsPrintable (build_dmi_modalias smbios entry_point table)
unfolding build_dmi_modalias
build_dmi_modalias-IsPrintable smbios entry_point table =
    elim (Option-cases (read_raw_tables entry_point table)) [
      | inl unreadable ↦ rw (unreadable, build_dmi_modalias) (record { printable = refl })
      | inr (buffer, readable) ↦
          rw (readable, build_dmi_modalias) (from_entries-IsPrintable (smbios buffer))
    ]
