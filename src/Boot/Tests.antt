-- ===== src/Boot/Tests.antt =====
-- A start of the kernel from a boot loader's record with a module and a memory map.
use cheet_os.Base.{ℕ, false, ◌==◌, if◌then◌else◌, []}
use cheet_os.Interrupts.{initial_gate}
use cheet_os.Boot.{Machine, Loader, Segment}
use cheet_os.Boot.Ends.{Ends}

abbrev blank_segment : Segment
blank_segment = record {
  seg_lim_15_00 = 0;
  base_15_00 = 0;
  base_23_16 = 0;
  type = 0;
  sys = 0;
  dpl = 0;
  present = 0;
  seg_lim_19_16 = 0;
  avail = 0;
  reserved = 0;
  opsize = 0;
  granularity = 0;
  base_31_24 = 0;
}

-- The flags 3 and 6, one module, and a map of one entry, of 24 bytes, at 0x1388.
abbrev loaded : ℕ → ℕ
loaded a =
    if a == 4096
    then 72
    else if a == 4116
    then 1
    else if a == 4140
    then 24
    else if a == 4144
    then 0x88
    else if a == 4145
    then 0x13
    else if a == 0x1388
    then 20
    else 0

abbrev loader : Loader
loader = record {
  address = λ h. 0x401234;
  device = λ log. 0x42;
  ldt = 0x410000;
  ldt_size = 15;
  tss = 0x410100;
  tss_limit = 103;
  memory = loaded;
  bound = 64;
  conv = λ i. 0;
  stack = blank_segment;
}

abbrev machine : Machine
machine = record {
  screen = record { video = λ i. 0x20; screen_x = 3; screen_y = 4; log = [] };
  rtc = record {
    intflag = 1;
    rtc_call_count = 7;
    pic = record { master_mask = 0xFF; slave_mask = 0xFF; log = [] };
  };
  idt = λ v. initial_gate;
  paging = record {
    page_directory = λ i. 0;
    page_table = λ i. 0;
    video_pages = λ i. 0;
    page_table_address = 0x00420000;
    video_pages_address = 0x00430000;
  };
  image = record { mem = λ a. 0; fs_ptr = 0 };
  ldt_desc = blank_segment;
  tss_desc = blank_segment;
  ldt_segment_selector = 0;
  ss0 = 0;
  esp0 = 0;
  interrupts = false;
}
