-- ===== src/Cyclic/Life.antt =====
-- The entities of a cyclic sample from `init` to the destructor.
use rcl_like_wrapper_for_fas.Base.{ℕ, refl, Bool, true, false, ◌&&◌, ◌==◌, if◌then◌else◌}
use rcl_like_wrapper_for_fas.Sample.{Answers, Made, init, destroy_publisher, destroy_subscriber}
use rcl_like_wrapper_for_fas.Sample.Life.{Clears, publisher_init-Clears, subscriber_init-Clears}
use rcl_like_wrapper_for_fas.Cyclic.Copies.{
  ros_type_data_publisher, cyclic_ros_data_publisher, ros_type_data_subscriber,
}
use rcl_like_wrapper_for_fas.Cyclic.{
  Config, as_or, refuse, checked, init_with, read_config, publisher_init, subscriber_init,
}

choose : (P : Made → Type 0) (b : Bool) (m n : Made) → P m → P n → P (if b then m else n)
choose P true m n h k = h
choose P false m n h k = k

refuse-Clears : Clears destroy_publisher refuse × Clears destroy_subscriber refuse
unfolding refuse destroy_publisher destroy_subscriber
refuse-Clears = (refl, refl)

-- Whatever the configuration says and Fast DDS answers, also where `init` refuses the configuration:
-- the calls of `init` and of the destructor keep the rules of Fast DDS, each entity is deleted once,
-- and none is left; this holds of the two publishers and of the subscriber.
pub cyclic-Clears :
    (fast_dds : ℕ → Bool → Answers) (c : Config)
    → Clears ros_type_data_publisher.destroy_ (ros_type_data_publisher.init_ fast_dds c)
      × Clears cyclic_ros_data_publisher.destroy_ (cyclic_ros_data_publisher.init_ fast_dds c)
      × Clears ros_type_data_subscriber.destroy_ (ros_type_data_subscriber.init_ fast_dds c)
unfolding ros_type_data_publisher cyclic_ros_data_publisher ros_type_data_subscriber publisher_init
    subscriber_init init_with checked
cyclic-Clears fast_dds c =
    let shared = as_or c.shared_memory false in
    let s = read_config c in
    let a = fast_dds s.domain_number_ shared in
    let b = as_or c.ros2_topic true && shared in
    let m = init s.topic_name_ false a in
    let p =
      choose (Clears destroy_publisher) b refuse (checked true (fast_dds s.domain_number_) shared s)
        refuse-Clears.0
        (choose (Clears destroy_publisher) (s.interval_ms_ == 0) refuse m refuse-Clears.0
          (publisher_init-Clears s.topic_name_ false a)) in
    (
      p,
      p,
      choose (Clears destroy_subscriber) b refuse m refuse-Clears.1
          (subscriber_init-Clears s.topic_name_ false a),
    )
